-- ===== src/Api/Process.antt =====
-- ProcessDataBatchMsg of pkg/api/message_handler.go. Its steps are one function each, the later ones
-- first, and a step's answer is the answer of the whole handler.
use capillaries.Prelude.{Option, none, some, [], ◌∷◌, if◌then◌else◌}
use capillaries.Prelude.Int.{pos, int_lt}
use capillaries.Prelude.Assoc.{lookup}
use capillaries.Wfmodel.Status.{NodeBatchStatus, node_batch_start, node_batch_fail, RunStatus}
use capillaries.Wfmodel.BatchHistory.{LastStatus, single_batch_history_rows_to_last_batch_status}
use capillaries.Wfmodel.RunHistory.{run_history_rows_to_status}
use capillaries.Api.World.{
  Error, Reply, got, failed, ScriptNode, Script, ScriptInit, script_loaded, BatchMessage,
  db_connect, get_run_status_rows, new_script_from_files, get_single_batch_status_rows,
  set_node_status, delete_data_and_unique_indexes, call_processor, Env, M, ◌>>=◌, ◌>>◌, pure, call,
  decoded, on_reply, on_error, Acknowledge, ack, retry, retry_if_conn, FurtherProcessing, proceed,
  further_ack, further_retry,
}
use capillaries.Api.Refresh.{refresh_node_and_run_status}
use capillaries.Api.Dependencies.{Ready, check_dependency_nodes_ready}
use capillaries.Api.Checks.{
  init_ctx_script, BatchScenario, batch_none, batch_clean, batch_was_abandoned, write_batch_status,
  check_run_status, check_last_batch_status, check_dependency_nogo_or_wait,
}

-- `switch furtherProcCmd`, with the steps that follow it.
unfoldable pub if_proceed : FurtherProcessing → M Acknowledge → M Acknowledge
if_proceed proceed k = k
if_proceed further_ack k = pure ack
if_proceed further_retry k = pure retry

module _ (env : Env) where
  -- The refresh that ends a batch: retry on a lost connection, else acknowledge.
  unfoldable pub refresh_and_answer : BatchMessage → M Acknowledge
  refresh_and_answer msg = do
    e ← refresh_node_and_run_status env msg
    on_error e retry_if_conn (pure ack)

  unfoldable pub write_outcome : BatchMessage → NodeBatchStatus → M Acknowledge
  write_outcome msg s = do
    e ← write_batch_status env s
    on_error e retry_if_conn (refresh_and_answer msg)

  -- An error of the processor is reported in the batch status, unless the connection is lost.
  unfoldable pub finish_batch : BatchMessage → Reply NodeBatchStatus → M Acknowledge
  finish_batch msg (got s) = write_outcome msg s
  finish_batch msg (failed e) = if e.is_conn then pure retry else write_outcome msg node_batch_fail

  unfoldable pub run_processor : BatchMessage → Ready → M Acknowledge
  run_processor msg r = do
    reply ←
        call (call_processor r.run_id_reader r.run_id_lookup)
          (env.processor r.run_id_reader r.run_id_lookup)
    finish_batch msg reply

  -- A batch that is marked started already, and was not abandoned, is marked failed.
  unfoldable pub start_refused : BatchMessage → BatchScenario → Ready → Error → M Acknowledge
  start_refused msg batch_was_abandoned r e =
      if e.is_conn then pure retry else if e.is_duplicate then run_processor msg r else pure ack
  start_refused msg _ r e =
      if e.is_conn
      then pure retry
      else if e.is_duplicate
      then write_batch_status env node_batch_fail >> pure ack
      else pure ack

  unfoldable pub mark_batch_started : BatchMessage → BatchScenario → Ready → M Acknowledge
  mark_batch_started msg scenario r = do
    e ← write_batch_status env node_batch_start
    on_error e (start_refused msg scenario r) (run_processor msg r)

  unfoldable pub mark_node_started : BatchMessage → BatchScenario → Ready → M Acknowledge
  mark_node_started msg scenario r = do
    e ← call (set_node_status node_batch_start) (env.write (set_node_status node_batch_start))
    on_error e
        (λ e.
          if e.is_conn
          then pure retry
          else if e.is_duplicate
          then mark_batch_started msg scenario r
          else pure ack)
        (mark_batch_started msg scenario r)

  unfoldable pub obey_dependencies : BatchMessage → BatchScenario → Ready → M Acknowledge
  obey_dependencies msg scenario r = do
    c ← check_dependency_nogo_or_wait env msg r.cmd
    if_proceed c (mark_node_started msg scenario r)

  unfoldable pub verify_dependencies :
      BatchMessage → Script → ScriptNode → BatchScenario → M Acknowledge
  verify_dependencies msg s node scenario = do
    r ← check_dependency_nodes_ready env msg s node
    on_reply r retry_if_conn (obey_dependencies msg scenario)

  unfoldable pub fail_abandoned : BatchMessage → M Acknowledge
  fail_abandoned msg = do
    e ← write_batch_status env node_batch_fail
    on_error e
        (λ e.
          if e.is_conn
          then pure retry
          else if e.is_duplicate
          then refresh_and_answer msg
          else pure ack)
        (refresh_and_answer msg)

  -- What an earlier worker left behind is deleted before the batch is processed again.
  unfoldable pub clean_up_abandoned : BatchMessage → Script → ScriptNode → M Acknowledge
  clean_up_abandoned msg s node = do
    e ← call delete_data_and_unique_indexes env.delete_leftovers
    on_error e
        (λ e. if e.is_conn then pure retry else write_batch_status env node_batch_fail >> pure ack)
        (verify_dependencies msg s node batch_was_abandoned)

  unfoldable pub obey_last_status :
      BatchMessage → Script → ScriptNode → FurtherProcessing × BatchScenario → M Acknowledge
  obey_last_status msg s node (further_retry, scenario) = pure retry
  obey_last_status msg s node (further_ack, batch_was_abandoned) = fail_abandoned msg
  obey_last_status msg s node (further_ack, batch_none) = pure ack
  obey_last_status msg s node (further_ack, batch_clean) = pure ack
  obey_last_status msg s node (proceed, batch_was_abandoned) = clean_up_abandoned msg s node
  obey_last_status msg s node (proceed, batch_none) = verify_dependencies msg s node batch_none
  obey_last_status msg s node (proceed, batch_clean) = verify_dependencies msg s node batch_clean

  unfoldable pub check_batch : BatchMessage → Script → ScriptNode → LastStatus → M Acknowledge
  check_batch msg s node last = do
    c ← check_last_batch_status env msg node last
    obey_last_status msg s node c

  unfoldable pub load_batch : BatchMessage → Script → ScriptNode → M Acknowledge
  load_batch msg s node = do
    rows ← call get_single_batch_status_rows env.single_batch_rows
    on_reply rows retry_if_conn λ rows.
        on_reply
          (decoded (single_batch_history_rows_to_last_batch_status rows ("ts" ∷ "status" ∷ [])))
          (λ e. pure ack) (check_batch msg s node)

  unfoldable pub find_node : BatchMessage → Script → Option ScriptNode → M Acknowledge
  find_node msg s none = pure ack
  find_node msg s (some node) = load_batch msg s node

  unfoldable pub use_script : BatchMessage → ScriptInit → M Acknowledge
  use_script msg (script_loaded s) = find_node msg s (lookup msg.target_node_name s.script_nodes)
  use_script msg problem = if_proceed (init_ctx_script problem) (pure ack)

  unfoldable pub load_script : BatchMessage → M Acknowledge
  load_script msg = do init ← call new_script_from_files env.script; use_script msg init

  unfoldable pub check_run : BatchMessage → RunStatus → M Acknowledge
  check_run msg s = do c ← check_run_status env msg s; if_proceed c (load_script msg)

  -- `GetRunStatusRows` refuses a run id that is not positive.
  unfoldable pub load_run : BatchMessage → M Acknowledge
  load_run msg =
      if int_lt (pos 0) msg.run_id
      then (do
        rows ← call get_run_status_rows env.run_status_rows
        on_reply rows retry_if_conn λ rows.
            on_reply (decoded (run_history_rows_to_status rows)) (λ e. pure ack) (check_run msg))
      else pure ack

  unfoldable pub process_data_batch_msg : BatchMessage → M Acknowledge
  process_data_batch_msg msg = do
    e ← call db_connect env.connect
    on_error e (λ _. pure retry) (load_run msg)
