-- ===== src/Api/Refresh.antt =====
-- updateNodeStatusFromBatches, updateRunStatusFromNodes and refreshNodeAndRunStatus of
-- pkg/api/message_handler.go, with the guards of pkg/wfdb on the run id.
use capillaries.Prelude.{◌||◌, Option, none, some, [], ◌∷◌, if◌then◌else◌}
use capillaries.Prelude.Int.{pos, int_lt, int_eq}
use capillaries.Wfmodel.Status.{
  NodeBatchStatus, node_batch_none, node_batch_success, node_batch_fail, run_complete,
}
use capillaries.Wfmodel.BatchHistory.{
  NodeStatusFound, all_batch_history_rows_to_node_status, is_terminal,
}
use capillaries.Wfmodel.NodeHistory.{node_history_rows_to_events, figure_out_run_status}
use capillaries.Wfmodel.RunProperties.{RunProperties, new_run_properties_from_map, split_commas}
use capillaries.Api.World.{
  Error, plain_error, Reply, got, failed, BatchMessage, get_all_batch_history, get_run_properties,
  get_node_history, set_node_status, set_run_status, Env, M, ◌>>=◌, pure, call, decoded, on_reply,
}

module _ (env : Env) where
  -- A duplicate record means that the status is there already.
  node_status_written : NodeBatchStatus → Option Error → M (Reply NodeBatchStatus)
  node_status_written s none = pure (got s)
  node_status_written s (some e) = pure (if e.is_duplicate then got node_batch_none else failed e)

  write_node_status : NodeStatusFound → M (Reply NodeBatchStatus)
  unfolding node_status_written
  write_node_status found =
      if is_terminal found.status
      then (do
        e ← call (set_node_status found.status) (env.write (set_node_status found.status))
        node_status_written found.status e)
      else pure (got found.status)

  unfoldable pub update_node_status_from_batches : M (Reply NodeBatchStatus)
  unfolding write_node_status
  update_node_status_from_batches = do
    rows ← call get_all_batch_history env.all_batch_rows
    on_reply rows (λ e. pure (failed e))
        λ rows.
          on_reply
            (decoded (
              all_batch_history_rows_to_node_status rows
                ("batch_idx" ∷ "batches_total" ∷ "status" ∷ [])))
            (λ e. pure (failed e)) write_node_status

  -- `SetRunStatus` refuses a run id that is not positive.
  unfoldable pub write_run_complete : BatchMessage → NodeBatchStatus → M (Option Error)
  write_run_complete msg s =
      if int_eq s node_batch_success || int_eq s node_batch_fail
      then if int_lt (pos 0) msg.run_id
        then call (set_run_status run_complete) (env.write (set_run_status run_complete))
        else pure (some plain_error)
      else pure none

  run_status_from_properties : BatchMessage → RunProperties → M (Option Error)
  unfolding write_run_complete
  run_status_from_properties msg p = do
    rows ← call get_node_history env.node_history_rows
    on_reply rows (λ e. pure (some e))
        λ rows.
          on_reply (decoded (node_history_rows_to_events rows)) (λ e. pure (some e))
            λ es.
              write_run_complete msg
                (figure_out_run_status es msg.run_id (split_commas p.affected_nodes)).0

  unfoldable pub update_run_status_from_nodes : BatchMessage → M (Option Error)
  unfolding run_status_from_properties
  update_run_status_from_nodes msg =
      if int_lt (pos 0) msg.run_id
      then (do
        row ← call get_run_properties env.run_properties_row
        on_reply row (λ e. pure (some e))
            λ row.
              on_reply
                (decoded (new_run_properties_from_map row ("run_id" ∷ "affected_nodes" ∷ [])))
                (λ e. pure (some e)) (run_status_from_properties msg))
      else pure (some plain_error)

  unfoldable pub refresh_node_and_run_status : BatchMessage → M (Option Error)
  unfolding update_node_status_from_batches update_run_status_from_nodes
  refresh_node_and_run_status msg = do
    s ← update_node_status_from_batches
    on_reply s (λ e. pure (some e)) (λ _. update_run_status_from_nodes msg)
