-- ===== src/Examples/Histories.antt =====
-- Runs of the derivation of statuses, pkg/wfmodel.
use Prim.Native.String.{String}
use capillaries.Prelude.{
  ℕ, ◌≡◌, refl, arith, Bool, true, false, Option, none, some, List, [], ◌∷◌, ◌⊎◌, length, any, All,
  Any,
}
use capillaries.Prelude.Int.{ℤ, pos, int_lt}
use capillaries.Prelude.Text.{bytes, text_eq}
use capillaries.Prelude.Assoc.{lookup}
use capillaries.Wfmodel.Row.{Row, time_value, int8_value, int64_value, Result, ok, epoch}
use capillaries.Wfmodel.Status.{node_batch_none, node_batch_start, node_batch_success}
use capillaries.Wfmodel.BatchHistory.{
  BatchHistoryEvent, blank_batch_event, LastStatus, no_status, NodeStatusFound, indices,
  batch_events, single_batch_history_rows_to_last_batch_status,
  all_batch_history_rows_to_node_status,
}
use capillaries.Wfmodel.BatchHistory.Completion.{open_batches, status_of, node_status_is_complete}
use capillaries.Prelude.{count_if, ◌≤◌}
use capillaries.Wfmodel.Row.{text_value}
use capillaries.Wfmodel.NodeHistory.{NodeHistoryEvent, figure_out_run_status}
use capillaries.Wfmodel.NodeHistory.RunStatus.{
  statuses_of, last_or_stop, affected_status_is_last, run_success_means_all_succeeded,
}
use capillaries.Wfmodel.RunHistory.{RunHistoryEvent}

abbrev status_row : ℕ → ℕ → Row
status_row t s = ("ts", time_value (pos t)) ∷ ("status", int8_value (pos s)) ∷ []

abbrev batch_row : ℕ → ℕ → Row
batch_row i s =
    ("batch_idx", int64_value (pos i))
    ∷ ("batches_total", int64_value (pos 2))
    ∷ ("status", int8_value (pos s))
    ∷ []

abbrev ts_status : List String
ts_status = "ts" ∷ "status" ∷ []

abbrev batch_fields : List String
batch_fields = "batch_idx" ∷ "batches_total" ∷ "status" ∷ []

-- The start and the success of a batch in the same millisecond.
abbrev same_time : List Row
same_time = status_row 7 2 ∷ status_row 7 1 ∷ []

abbrev same_time_events : List BatchHistoryEvent
same_time_events =
    record blank_batch_event { ts = pos 7; status = pos 2 }
    ∷ record blank_batch_event { ts = pos 7; status = pos 1 }
    ∷ []

finished_at_once :
    single_batch_history_rows_to_last_batch_status same_time ts_status
    ≡ ok (record { status = node_batch_success; ts = pos 7 })
unfolding single_batch_history_rows_to_last_batch_status
    capillaries.Wfmodel.BatchHistory.new_batch_history_event_from_map
    capillaries.Wfmodel.Row.read_time_from_row
    capillaries.Wfmodel.Row.read_node_batch_status_from_row
    capillaries.Wfmodel.BatchHistory.later_status
finished_at_once = refl

abbrev one_ended : List Row
one_ended = batch_row 0 1 ∷ batch_row 1 1 ∷ batch_row 0 2 ∷ []

abbrev one_ended_events : List BatchHistoryEvent
one_ended_events =
    record blank_batch_event { batch_idx = pos 1; batches_total = pos 2; status = pos 1 }
    ∷ record blank_batch_event { batch_idx = pos 0; batches_total = pos 2; status = pos 2 }
    ∷ []

abbrev first_event : BatchHistoryEvent
first_event = record blank_batch_event { batch_idx = pos 0; batches_total = pos 2; status = pos 1 }

node_status_is_complete_example :
    let left = open_batches (first_event ∷ one_ended_events) (indices (pos 2)) in
    (1 ≡ length left)
    × (pos 2 ≡ first_event.batches_total)
    × (node_batch_start ≡ status_of left (first_event ∷ one_ended_events))
unfolding all_batch_history_rows_to_node_status batch_events
    capillaries.Wfmodel.BatchHistory.new_batch_history_event_from_map
    capillaries.Wfmodel.Row.read_int16_from_row
    capillaries.Wfmodel.Row.read_node_batch_status_from_row capillaries.Prelude.Int.wrap16
    capillaries.Wfmodel.BatchHistory.batch_round
node_status_is_complete_example =
    node_status_is_complete batch_fields one_ended first_event one_ended_events
      (record { status = node_batch_start; batches_total = pos 2; in_progress = 1 }) refl refl

abbrev node_event : String → ℕ → NodeHistoryEvent
node_event n s = record {
  ts = pos 3;
  run_id = pos 1;
  script_node = bytes n;
  written_by_batch_idx = pos 0;
  status = pos s;
  comment = [];
}

abbrev done : List NodeHistoryEvent
done = node_event "n" 1 ∷ node_event "n" 2 ∷ []

abbrev broken_run : List NodeHistoryEvent
broken_run = node_event "n" 1 ∷ node_event "n" 3 ∷ []

affected_status_is_last_example :
    lookup (bytes "n") (figure_out_run_status done (pos 1) (bytes "n" ∷ [])).1
    ≡ some (last_or_stop node_batch_none (statuses_of (pos 1) (bytes "n") done))
unfolding text_eq
affected_status_is_last_example =
    affected_status_is_last done (pos 1) (bytes "n" ∷ []) (bytes "n") refl

run_success_means_all_succeeded_example :
    last_or_stop node_batch_none (statuses_of (pos 1) (bytes "n") done) ≡ node_batch_success
unfolding text_eq figure_out_run_status lookup capillaries.Prelude.Assoc.put
run_success_means_all_succeeded_example =
    run_success_means_all_succeeded done (pos 1) (bytes "n" ∷ []) (bytes "n") refl refl

abbrev run_event : ℕ → RunHistoryEvent
run_event s = record { ts = pos 7; run_id = pos 0; status = pos s; comment = [] }

-- A start that a batch writes for its node.
abbrev start_row : ℕ → ℕ → Row
start_row t i =
    ("ts", time_value (pos t))
    ∷ ("run_id", int64_value (pos 1))
    ∷ ("script_node", text_value (bytes "n"))
    ∷ ("written_by_batch_idx", int64_value (pos i))
    ∷ ("status", int8_value (pos 1))
    ∷ ("comment", text_value [])
    ∷ []

abbrev earliest_start : NodeHistoryEvent
earliest_start = record {
  ts = pos 4;
  run_id = pos 1;
  script_node = bytes "n";
  written_by_batch_idx = pos 1;
  status = pos 1;
  comment = [];
}
