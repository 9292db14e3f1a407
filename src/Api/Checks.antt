-- ===== src/Api/Checks.antt =====
-- The checks of pkg/api/message_handler.go that decide whether a batch is processed: initCtxScript,
-- checkRunStatus, checkLastBatchStatus and checkDependencyNogoOrWait.
use capillaries.Prelude.{◌*◌, ◌+◌, ◌||◌, Option, if◌then◌else◌}
use capillaries.Prelude.Int.{ℤ, pos, negsuc, ◌+ℤ◌, int_lt, int_eq, wrap64}
use capillaries.Wfmodel.Status.{
  NodeBatchStatus, node_batch_none, node_batch_start, node_batch_success, node_batch_fail,
  node_batch_run_stop_received, RunStatus, run_none, run_start, run_stop,
}
use capillaries.Wfmodel.Row.{Time}
use capillaries.Wfmodel.BatchHistory.{LastStatus}
use capillaries.Dpc.Policy.{NodeCmd, node_none, node_go, node_wait, node_nogo}
use capillaries.Api.World.{
  Error, RerunPolicy, node_rerun, node_fail, other_policy, ScriptNode, ScriptInit, script_loaded,
  url_problem, content_problem, connectivity_problem, unknown_problem, BatchMessage, read_clock,
  set_batch_status, Env, M, ◌>>=◌, pure, call, on_error, FurtherProcessing, proceed, further_ack,
  further_retry,
}
use capillaries.Api.Refresh.{refresh_node_and_run_status}

-- Retry on a lost connection, acknowledge any other error.
abbrev pub further_if_conn : Error → M FurtherProcessing
further_if_conn e = pure (if e.is_conn then further_retry else further_ack)

unfoldable pub init_ctx_script : ScriptInit → FurtherProcessing
init_ctx_script (script_loaded s) = proceed
init_ctx_script url_problem = further_ack
init_ctx_script content_problem = further_ack
init_ctx_script connectivity_problem = further_retry
init_ctx_script unknown_problem = further_retry

pub data BatchScenario : Type 0 where
  batch_none batch_clean batch_was_abandoned : BatchScenario

-- `ms * time.Millisecond` on int64.
abbrev milliseconds : ℤ → ℤ
milliseconds (pos n) = wrap64 (pos (n * 1000000))
milliseconds (negsuc n) = wrap64 (negsuc (n * 1000000 + 999999))

-- The end of the time that a worker that started the batch is given.
unfoldable pub grace_end : ScriptNode → Time → Time
unfolding wrap64
grace_end node ts = ts +ℤ milliseconds node.max_batch_processing_time

module _ (env : Env) where
  -- `wfdb.SetBatchStatus`
  abbrev pub write_batch_status : NodeBatchStatus → M (Option Error)
  write_batch_status s = call (set_batch_status s) (env.write (set_batch_status s))

  unfoldable pub refresh_then_ack : BatchMessage → M FurtherProcessing
  unfolding refresh_node_and_run_status
  refresh_then_ack msg = do
    e ← refresh_node_and_run_status env msg
    on_error e further_if_conn (pure further_ack)

  never_started : BatchMessage → M FurtherProcessing
  unfolding refresh_then_ack
  never_started msg = do
    e ← write_batch_status node_batch_fail
    on_error e (λ e. if e.is_conn then pure further_retry else refresh_then_ack msg)
        (refresh_then_ack msg)

  write_then_refresh : NodeBatchStatus → BatchMessage → M FurtherProcessing
  unfolding refresh_then_ack
  write_then_refresh s msg = do
    e ← write_batch_status s
    on_error e further_if_conn (refresh_then_ack msg)

  unfoldable pub check_run_status : BatchMessage → RunStatus → M FurtherProcessing
  unfolding never_started write_then_refresh
  check_run_status msg s =
      if int_eq s run_none
      then never_started msg
      else if int_eq s run_stop
      then write_then_refresh node_batch_run_stop_received msg
      else pure (if int_eq s run_start then proceed else further_ack)

  -- The grace period of an abandoned batch, or a policy that does not run it again.
  check_abandoned : RerunPolicy → Time → M (FurtherProcessing × BatchScenario)
  check_abandoned node_rerun end = do
    now ← call read_clock env.now
    pure (if int_lt now end then (further_retry, batch_none) else (proceed, batch_was_abandoned))
  check_abandoned node_fail end = pure (further_ack, batch_was_abandoned)
  check_abandoned other_policy end = pure (further_ack, batch_was_abandoned)

  check_finished : BatchMessage → M (FurtherProcessing × BatchScenario)
  unfolding refresh_then_ack
  check_finished msg = do c ← refresh_then_ack msg; pure (c, batch_none)

  unfoldable pub check_last_batch_status :
      BatchMessage → ScriptNode → LastStatus → M (FurtherProcessing × BatchScenario)
  unfolding check_finished check_abandoned grace_end
  check_last_batch_status msg node last =
      if int_eq last.status node_batch_fail || int_eq last.status node_batch_success
      then check_finished msg
      else if int_eq last.status node_batch_start
      then check_abandoned node.rerun_policy (grace_end node last.ts)
      else if int_eq last.status node_batch_run_stop_received
      then pure (further_ack, batch_none)
      else pure (
          if int_eq last.status node_batch_none
          then (proceed, batch_clean)
          else (further_ack, batch_none))

  unfoldable pub check_dependency_nogo_or_wait : BatchMessage → NodeCmd → M FurtherProcessing
  unfolding write_then_refresh
  check_dependency_nogo_or_wait msg node_nogo = write_then_refresh node_batch_fail msg
  check_dependency_nogo_or_wait msg node_wait = pure further_retry
  check_dependency_nogo_or_wait msg node_go = pure proceed
  check_dependency_nogo_or_wait msg node_none = pure proceed
