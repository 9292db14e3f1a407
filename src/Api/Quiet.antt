-- ===== src/Api/Quiet.antt =====
-- The steps of pkg/api/message_handler.go that neither process a batch nor mark it successful.
use capillaries.Prelude.{◌≡◌, arith}
use capillaries.Wfmodel.Status.{RunStatus}
use capillaries.Wfmodel.BatchHistory.{LastStatus}
use capillaries.Dpc.Policy.{NodeCmd}
use capillaries.Api.World.{Env, BatchMessage, Script, ScriptNode, Trace}
use capillaries.Api.Calls.{processed, is_ordered, touched, cleaned, Quiet}
use capillaries.Api.Refresh.{
  update_node_status_from_batches, update_run_status_from_nodes, refresh_node_and_run_status,
}
use capillaries.Api.Dependencies.{check_dependency_nodes_ready}
use capillaries.Api.Checks.{
  refresh_then_ack, check_run_status, check_last_batch_status, check_dependency_nogo_or_wait,
}

module _ (env : Env) where
  pub refresh-Quiet :
      (msg : BatchMessage) (t : Trace) → Quiet env t (refresh_node_and_run_status env msg t).1
  unfolding refresh_node_and_run_status update_node_status_from_batches update_run_status_from_nodes
      processed is_ordered touched cleaned
  refresh-Quiet msg t = (ground arith, ground arith, ground arith, ground arith)

  refresh_then_ack-Quiet :
      (msg : BatchMessage) (t : Trace) → Quiet env t (refresh_then_ack env msg t).1
  unfolding refresh_then_ack
  refresh_then_ack-Quiet msg t =
      let h = refresh-Quiet msg t in
      (ground (arith, h.0), ground (arith, h.1), ground (arith, h.2), ground (arith, h.3))

  pub check_run_status-Quiet :
      (msg : BatchMessage) (s : RunStatus) (t : Trace)
      → Quiet env t (check_run_status env msg s t).1
  unfolding check_run_status refresh_then_ack refresh_node_and_run_status
      update_node_status_from_batches update_run_status_from_nodes processed is_ordered touched
      cleaned
  check_run_status-Quiet msg s t = (ground arith, ground arith, ground arith, ground arith)

  pub check_last_batch_status-Quiet :
      (msg : BatchMessage) (node : ScriptNode) (last : LastStatus) (t : Trace)
      → Quiet env t (check_last_batch_status env msg node last t).1
  unfolding check_last_batch_status refresh_then_ack refresh_node_and_run_status
      update_node_status_from_batches update_run_status_from_nodes processed is_ordered touched
      cleaned
  check_last_batch_status-Quiet msg node last t =
      (ground arith, ground arith, ground arith, ground arith)

  pub check_dependency_nogo_or_wait-Quiet :
      (msg : BatchMessage) (c : NodeCmd) (t : Trace)
      → Quiet env t (check_dependency_nogo_or_wait env msg c t).1
  unfolding check_dependency_nogo_or_wait refresh_then_ack refresh_node_and_run_status
      update_node_status_from_batches update_run_status_from_nodes processed is_ordered touched
      cleaned
  check_dependency_nogo_or_wait-Quiet msg c t =
      (ground arith, ground arith, ground arith, ground arith)

  processed-check_dependency_nodes_ready :
      (msg : BatchMessage) (s : Script) (node : ScriptNode) (t : Trace)
      → processed (check_dependency_nodes_ready env msg s node t).1 ≡ processed t
  unfolding check_dependency_nodes_ready processed
  processed-check_dependency_nodes_ready msg s node t = ground arith

  is_ordered-check_dependency_nodes_ready :
      (msg : BatchMessage) (s : Script) (node : ScriptNode) (t : Trace)
      → is_ordered env (check_dependency_nodes_ready env msg s node t).1 ≡ is_ordered env t
  unfolding check_dependency_nodes_ready is_ordered
  is_ordered-check_dependency_nodes_ready msg s node t = ground arith

  touched-check_dependency_nodes_ready :
      (msg : BatchMessage) (s : Script) (node : ScriptNode) (t : Trace)
      → touched (check_dependency_nodes_ready env msg s node t).1 ≡ touched t
  unfolding check_dependency_nodes_ready touched
  touched-check_dependency_nodes_ready msg s node t = ground arith

  cleaned-check_dependency_nodes_ready :
      (msg : BatchMessage) (s : Script) (node : ScriptNode) (t : Trace)
      → cleaned (check_dependency_nodes_ready env msg s node t).1 ≡ cleaned t
  unfolding check_dependency_nodes_ready cleaned
  cleaned-check_dependency_nodes_ready msg s node t = ground arith

  pub check_dependency_nodes_ready-Quiet :
      (msg : BatchMessage) (s : Script) (node : ScriptNode) (t : Trace)
      → Quiet env t (check_dependency_nodes_ready env msg s node t).1
  check_dependency_nodes_ready-Quiet msg s node t = (
    processed-check_dependency_nodes_ready msg s node t,
    is_ordered-check_dependency_nodes_ready msg s node t,
    touched-check_dependency_nodes_ready msg s node t,
    cleaned-check_dependency_nodes_ready msg s node t,
  )
