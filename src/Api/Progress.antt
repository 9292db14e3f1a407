-- ===== src/Api/Progress.antt =====
-- That the handler of pkg/api/message_handler.go processes a batch when nothing stands in its way.
use capillaries.Prelude.{◌≡◌, arith, true, none, some, [], ◌∷◌, List}
use capillaries.Prelude.Int.{ℤ, pos, int_lt, int_eq}
use capillaries.Prelude.Assoc.{lookup}
use capillaries.Wfmodel.Row.{Row, ok}
use capillaries.Wfmodel.Status.{NodeBatchStatus, run_start, node_batch_start, node_batch_none}
use capillaries.Wfmodel.BatchHistory.{LastStatus, single_batch_history_rows_to_last_batch_status}
use capillaries.Wfmodel.RunHistory.{run_history_rows_to_status}
use capillaries.Dpc.Policy.{node_go}
use capillaries.Api.World.{
  got, Env, Call, BatchMessage, Script, ScriptNode, script_loaded, Trace, db_connect,
  get_run_status_rows, new_script_from_files, get_single_batch_status_rows, set_node_status,
  set_batch_status, call_processor,
}
use capillaries.Api.Calls.{last_written, called_with}
use capillaries.Api.Refresh.{refresh_node_and_run_status}
use capillaries.Api.Dependencies.{Ready, check_dependency_nodes_ready}
use capillaries.Api.Checks.{
  batch_clean, check_run_status, check_last_batch_status, check_dependency_nogo_or_wait,
}
use capillaries.Api.Process.{
  if_proceed, refresh_and_answer, write_outcome, finish_batch, run_processor, mark_batch_started,
  mark_node_started, obey_dependencies, verify_dependencies, obey_last_status, check_batch,
  load_batch, find_node, use_script, load_script, check_run, load_run, process_data_batch_msg,
}

-- The calls up to the check of the dependencies.
abbrev pub loaded : Trace
loaded =
    get_single_batch_status_rows ∷ new_script_from_files ∷ get_run_status_rows ∷ db_connect ∷ []

int_eq_refl : (a : ℤ) → int_eq a a ≡ true
int_eq_refl a = ground arith

-- The processor has been called for the run ids of the ready dependencies, and the status that is
-- written last is the one that is given.
abbrev Processed : Ready → NodeBatchStatus → Trace → Type 0
Processed r s t = (called_with r.run_id_reader r.run_id_lookup t ≡ true) × (last_written t ≡ some s)

module _ (env : Env) (msg : BatchMessage) where
  refresh-last_written :
      (t : Trace) → last_written (refresh_node_and_run_status env msg t).1 ≡ last_written t
  unfolding refresh_node_and_run_status last_written
  refresh-last_written t = ground arith

  refresh-called_with :
      (a b : ℤ) (t : Trace)
      → called_with a b (refresh_node_and_run_status env msg t).1 ≡ called_with a b t
  unfolding refresh_node_and_run_status called_with
  refresh-called_with a b t = ground arith

  run_processor-outcome :
      (r : Ready) (s : NodeBatchStatus) (t : Trace)
      → ((t : Trace) → env.processor r.run_id_reader r.run_id_lookup t ≡ got s)
      → ((c : Call) (t : Trace) → env.write c t ≡ none)
      → Processed r s (run_processor env msg r t).1
  unfolding run_processor finish_batch write_outcome refresh_and_answer last_written called_with
  run_processor-outcome r s t hp hw =
      let t1 = call_processor r.run_id_reader r.run_id_lookup ∷ t in
      let t2 = set_batch_status s ∷ t1 in
      (
        ground (
          arith,
          hp t,
          hw (set_batch_status s) t1,
          refresh-called_with r.run_id_reader r.run_id_lookup t2,
          int_eq_refl r.run_id_reader,
          int_eq_refl r.run_id_lookup,
        ),
        ground (arith, hp t, hw (set_batch_status s) t1, refresh-last_written t2),
      )

  mark_node_started-outcome :
      (r : Ready) (s : NodeBatchStatus) (t : Trace)
      → ((t : Trace) → env.processor r.run_id_reader r.run_id_lookup t ≡ got s)
      → ((c : Call) (t : Trace) → env.write c t ≡ none)
      → Processed r s (mark_node_started env msg batch_clean r t).1
  unfolding mark_node_started mark_batch_started
  mark_node_started-outcome r s t hp hw =
      let t1 = set_node_status node_batch_start ∷ t in
      let t2 = set_batch_status node_batch_start ∷ t1 in
      let rest = run_processor-outcome r s t2 hp hw in
      let written = hw (set_node_status node_batch_start) t in
      let started = hw (set_batch_status node_batch_start) t1 in
      (ground (arith, written, started, rest.0), ground (arith, written, started, rest.1))

  verify_dependencies-outcome :
      (sc : Script) (node : ScriptNode) (r : Ready) (s : NodeBatchStatus) (t : Trace)
      → ((t : Trace) → env.processor r.run_id_reader r.run_id_lookup t ≡ got s)
      → ((c : Call) (t : Trace) → env.write c t ≡ none)
      → (check_dependency_nodes_ready env msg sc node t).0 ≡ got r
      → r.cmd ≡ node_go
      → Processed r s (verify_dependencies env msg sc node batch_clean t).1
  unfolding verify_dependencies obey_dependencies if_proceed check_dependency_nogo_or_wait
  verify_dependencies-outcome sc node r s t hp hw hr hc =
      let t' = (check_dependency_nodes_ready env msg sc node t).1 in
      let rest = mark_node_started-outcome r s t' hp hw in
      (ground (arith, rest.0), ground (arith, rest.1))

-- For a new batch the processor is called with the run ids that the check of the dependencies found,
-- and the status of the batch that is written last is what the processor says: when the run is in
-- progress, the script has the node, the batch has no status yet, the check of the dependencies says
-- go, the processor answers for these run ids, and the state database accepts all that is written.
pub new_batch-processed :
    (env : Env) (msg : BatchMessage) (run_rows batch_rows : List Row) (sc : Script)
    (node : ScriptNode) (last : LastStatus) (r : Ready) (s : NodeBatchStatus)
    → int_lt (pos 0) msg.run_id ≡ true
    → env.connect [] ≡ none
    → env.run_status_rows (db_connect ∷ []) ≡ got run_rows
    → run_history_rows_to_status run_rows ≡ ok run_start
    → env.script (get_run_status_rows ∷ db_connect ∷ []) ≡ script_loaded sc
    → lookup msg.target_node_name sc.script_nodes ≡ some node
    → env.single_batch_rows (new_script_from_files ∷ get_run_status_rows ∷ db_connect ∷ [])
      ≡ got batch_rows
    → single_batch_history_rows_to_last_batch_status batch_rows ("ts" ∷ "status" ∷ []) ≡ ok last
    → last.status ≡ node_batch_none
    → (check_dependency_nodes_ready env msg sc node loaded).0 ≡ got r
    → r.cmd ≡ node_go
    → ((t : Trace) → env.processor r.run_id_reader r.run_id_lookup t ≡ got s)
    → ((c : Call) (t : Trace) → env.write c t ≡ none)
    → (called_with r.run_id_reader r.run_id_lookup (process_data_batch_msg env msg []).1 ≡ true)
      × (last_written (process_data_batch_msg env msg []).1 ≡ some s)
unfolding process_data_batch_msg load_run check_run check_run_status if_proceed load_script
    use_script find_node load_batch check_batch check_last_batch_status obey_last_status
new_batch-processed env msg run_rows batch_rows sc node last r s hid hc hr hrs hs hn hb hbs hl hd hg
      hp hw =
    let rest = verify_dependencies-outcome env msg sc node r s loaded hp hw hd hg in
    (ground (arith, rest.0), ground (arith, rest.1))
