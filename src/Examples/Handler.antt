-- ===== src/Examples/Handler.antt =====
-- Runs of the handler of batch messages, pkg/api/message_handler.go.
use capillaries.Prelude.{ℕ, ◌≡◌, refl, arith, Bool, true, false, Option, none, some, List, [], ◌∷◌}
use capillaries.Prelude.Int.{ℤ, pos, negsuc, int_lt}
use capillaries.Prelude.Text.{bytes, text_eq}
use capillaries.Prelude.Assoc.{lookup}
use capillaries.Wfmodel.Row.{Row, time_value, int8_value, ok}
use capillaries.Wfmodel.Status.{node_batch_success, node_batch_start, run_stop}
use capillaries.Wfmodel.BatchHistory.{LastStatus}
use capillaries.Dpc.Default.{default_policy}
use capillaries.Api.World.{
  got, failed, plain_error, ScriptNode, Script, script_loaded, node_rerun, BatchMessage, cache_miss,
  Env,
}
use capillaries.Api.Checks.{batch_clean}
use capillaries.Api.Process.{verify_dependencies}
use capillaries.Api.Calls.{touched, last_written, called_with}
use capillaries.Api.Dependencies.{nothing_to_wait_for, check_dependency_nodes_ready}
use capillaries.Api.Checks.{grace_end}
use capillaries.Api.Process.{check_batch, process_data_batch_msg}
use capillaries.Api.Guards.{
  inactive_run-untouched, finished_batch-untouched, abandoned_batch-touched,
}
use capillaries.Api.Progress.{new_batch-processed}

abbrev status_row : ℕ → ℕ → Row
status_row t s = ("ts", time_value (pos t)) ∷ ("status", int8_value (pos s)) ∷ []

-- A node that reads a file, so it depends on no other.
abbrev file_node : ScriptNode
file_node = record {
  rerun_policy = node_rerun;
  max_batch_processing_time = pos 3;
  reader_table = none;
  lookup_table = none;
  dep_pol_def = default_policy;
}

abbrev script : Script
script = record { script_nodes = (bytes "n", file_node) ∷ []; table_creator_nodes = [] }

abbrev message : BatchMessage
message = record {
  run_id = pos 1;
  target_node_name = bytes "n";
  batch_idx = pos 0;
  batches_total = pos 1;
}

-- Every call succeeds; the rows of the run and of the batch are given.
abbrev world : List Row → List Row → Env
world run_rows batch_rows = record {
  connect = λ t. none;
  run_status_rows = λ t. got run_rows;
  script = λ t. script_loaded script;
  single_batch_rows = λ t. got batch_rows;
  all_batch_rows = λ t. got [];
  run_properties_row = λ t. failed plain_error;
  node_history_rows = λ t. got [];
  all_runs_properties_rows = λ t. got [];
  run_history_rows = λ t. got [];
  dependency_history_rows = λ t. got [];
  has_cache = false;
  cached = λ t. cache_miss;
  now = λ t. pos 9000000;
  write = λ c t. none;
  delete_leftovers = λ t. none;
  processor = λ a b t. got node_batch_success;
}

abbrev started_run : List Row
started_run = status_row 7 1 ∷ []

abbrev new_batch : Env
new_batch = world started_run []

inactive_run-untouched_example :
    touched (process_data_batch_msg (world (status_row 7 3 ∷ []) []) message []).1 ≡ false
unfolding capillaries.Wfmodel.RunHistory.run_history_rows_to_status
    capillaries.Wfmodel.RunHistory.new_run_history_event_from_map
    capillaries.Wfmodel.Row.read_time_from_row capillaries.Wfmodel.Row.read_run_status_from_row
    capillaries.Wfmodel.RunHistory.later_run_status
inactive_run-untouched_example =
    inactive_run-untouched (world (status_row 7 3 ∷ []) []) message (status_row 7 3 ∷ []) run_stop
      refl refl refl

abbrev success_at : LastStatus
success_at = record { status = node_batch_success; ts = pos 7 }

finished_batch-untouched_example :
    touched (process_data_batch_msg (world started_run (status_row 7 2 ∷ [])) message []).1 ≡ false
unfolding capillaries.Wfmodel.BatchHistory.single_batch_history_rows_to_last_batch_status
    capillaries.Wfmodel.BatchHistory.new_batch_history_event_from_map
    capillaries.Wfmodel.Row.read_time_from_row
    capillaries.Wfmodel.Row.read_node_batch_status_from_row
    capillaries.Wfmodel.BatchHistory.later_status
finished_batch-untouched_example =
    finished_batch-untouched (world started_run (status_row 7 2 ∷ [])) message (status_row 7 2 ∷ [])
      success_at (λ t. refl) refl refl

abbrev start_at : LastStatus
start_at = record { status = node_batch_start; ts = pos 7 }

abandoned_batch-touched_example :
    (file_node.rerun_policy ≡ node_rerun)
    × (int_lt (new_batch.now []) (grace_end file_node start_at.ts) ≡ false)
unfolding check_batch touched capillaries.Api.Process.obey_last_status
    capillaries.Api.Checks.check_last_batch_status capillaries.Prelude.Int.◌+ℤ◌
    capillaries.Api.Process.clean_up_abandoned capillaries.Api.Process.verify_dependencies
    check_dependency_nodes_ready capillaries.Api.Process.obey_dependencies
    capillaries.Api.Process.if_proceed capillaries.Api.Checks.check_dependency_nogo_or_wait
    capillaries.Api.Process.mark_node_started capillaries.Api.Process.mark_batch_started
    capillaries.Api.Process.run_processor capillaries.Api.Process.finish_batch
    capillaries.Api.Process.write_outcome capillaries.Api.Process.refresh_and_answer
    capillaries.Wfmodel.BatchHistory.all_batch_history_rows_to_node_status
abandoned_batch-touched_example =
    abandoned_batch-touched new_batch message script file_node start_at [] refl refl refl

new_batch-processed_example :
    (called_with nothing_to_wait_for.run_id_reader nothing_to_wait_for.run_id_lookup
        (process_data_batch_msg new_batch message []).1
      ≡ true)
    × (last_written (process_data_batch_msg new_batch message []).1 ≡ some node_batch_success)
unfolding check_dependency_nodes_ready capillaries.Wfmodel.RunHistory.run_history_rows_to_status
    capillaries.Wfmodel.RunHistory.new_run_history_event_from_map
    capillaries.Wfmodel.Row.read_time_from_row capillaries.Wfmodel.Row.read_run_status_from_row
    lookup text_eq capillaries.Wfmodel.BatchHistory.single_batch_history_rows_to_last_batch_status
new_batch-processed_example =
    new_batch-processed new_batch message started_run [] script file_node
      (record { status = pos 0; ts = pos 0 }) nothing_to_wait_for node_batch_success refl refl refl
      refl refl refl refl refl refl refl refl (λ t. refl) (λ c t. refl)
