-- ===== src/Api/Guards.antt =====
-- What keeps the handler of pkg/api/message_handler.go from processing a batch.
use capillaries.Prelude.{
  ◌≡◌, refl, Bool-cases, inl, inr, ◌∙◌, arith, Bool, true, false, none, some, [], ◌∷◌, List, if_ind,
}
use capillaries.Prelude.Int.{pos, int_lt, int_eq}
use capillaries.Prelude.Assoc.{lookup}
use capillaries.Wfmodel.Row.{Row, ok}
use capillaries.Wfmodel.Status.{RunStatus, run_start, node_batch_start}
use capillaries.Wfmodel.BatchHistory.{
  LastStatus, is_terminal, single_batch_history_rows_to_last_batch_status,
}
use capillaries.Wfmodel.RunHistory.{run_history_rows_to_status}
use capillaries.Api.World.{
  got, decoded, Env, BatchMessage, Script, ScriptNode, ScriptInit, script_loaded, url_problem,
  content_problem, connectivity_problem, unknown_problem, node_rerun, Trace, M, Acknowledge,
  FurtherProcessing, proceed, further_ack, further_retry, on_reply_ind, on_error_ind, db_connect,
  get_run_status_rows, new_script_from_files, get_single_batch_status_rows,
}
use capillaries.Api.Calls.{touched}
use capillaries.Api.Quiet.{check_run_status-Quiet, check_last_batch_status-Quiet}
use capillaries.Api.Refresh.{refresh_node_and_run_status}
use capillaries.Api.Checks.{
  BatchScenario, batch_none, batch_clean, batch_was_abandoned, refresh_then_ack, grace_end,
  check_run_status, check_last_batch_status, init_ctx_script,
}
use capillaries.Api.Process.{
  if_proceed, refresh_and_answer, fail_abandoned, obey_last_status, check_batch, load_batch,
  find_node, use_script, load_script, check_run, load_run, process_data_batch_msg,
}

abbrev Untouched : Trace → M Acknowledge → Type 0
Untouched t m = touched (m t).1 ≡ false

abbrev proceeds : FurtherProcessing → Bool
proceeds proceed = true
proceeds _ = false

module _ (env : Env) (msg : BatchMessage) where
  if_proceed-untouched :
      (c : FurtherProcessing) (k : M Acknowledge) (t : Trace)
      → touched t ≡ false
      → proceeds c ≡ false
      → touched (if_proceed c k t).1 ≡ false
  unfolding if_proceed
  if_proceed-untouched proceed k t h hc = ground arith
  if_proceed-untouched further_ack k t h hc = h
  if_proceed-untouched further_retry k t h hc = h

  check_run_status-proceeds :
      (s : RunStatus) (t : Trace)
      → int_eq s run_start ≡ false
      → proceeds (check_run_status env msg s t).0 ≡ false
  unfolding check_run_status refresh_then_ack refresh_node_and_run_status
  check_run_status-proceeds s t hs = ground arith

  check_run-untouched :
      (s : RunStatus) (t : Trace)
      → touched t ≡ false
      → int_eq s run_start ≡ false
      → touched (check_run env msg s t).1 ≡ false
  unfolding check_run
  check_run-untouched s t h hs =
      let m = check_run_status env msg s t in
      if_proceed-untouched m.0 (load_script env msg) m.1
        ((check_run_status-Quiet env msg s t).2 ∙ h) (check_run_status-proceeds s t hs)

  load_run-untouched :
      (rows : List Row) (s : RunStatus) (t : Trace)
      → touched t ≡ false
      → env.run_status_rows t ≡ got rows
      → run_history_rows_to_status rows ≡ ok s
      → int_eq s run_start ≡ false
      → touched (load_run env msg t).1 ≡ false
  unfolding load_run touched
  load_run-untouched rows s t h hr hs hn =
      ground (arith, check_run-untouched s (get_run_status_rows ∷ t) h hn)

  obey_last_status-untouched :
      (s : Script) (node : ScriptNode) (c : FurtherProcessing × BatchScenario) (t : Trace)
      → touched t ≡ false
      → proceeds c.0 ≡ false
      → touched (obey_last_status env msg s node c t).1 ≡ false
  unfolding obey_last_status fail_abandoned refresh_and_answer refresh_node_and_run_status touched
  obey_last_status-untouched s node (proceed, b) t h hc = ground arith
  obey_last_status-untouched s node (further_retry, b) t h hc = h
  obey_last_status-untouched s node (further_ack, batch_was_abandoned) t h hc = ground (arith, h)
  obey_last_status-untouched s node (further_ack, batch_none) t h hc = h
  obey_last_status-untouched s node (further_ack, batch_clean) t h hc = h

  check_batch-untouched :
      (s : Script) (node : ScriptNode) (last : LastStatus) (t : Trace)
      → touched t ≡ false
      → proceeds (check_last_batch_status env msg node last t).0.0 ≡ false
      → touched (check_batch env msg s node last t).1 ≡ false
  unfolding check_batch
  check_batch-untouched s node last t h hc =
      let m = check_last_batch_status env msg node last t in
      obey_last_status-untouched s node m.0 m.1
        ((check_last_batch_status-Quiet env msg node last t).2 ∙ h) hc

  check_last_batch_status-terminal :
      (node : ScriptNode) (last : LastStatus) (t : Trace)
      → is_terminal last.status ≡ true
      → proceeds (check_last_batch_status env msg node last t).0.0 ≡ false
  unfolding check_last_batch_status refresh_then_ack refresh_node_and_run_status
  check_last_batch_status-terminal node last t hl = ground arith

  abandoned_batch-proceeds :
      (node : ScriptNode) (last : LastStatus) (t : Trace)
      → last.status ≡ node_batch_start
      → proceeds (check_last_batch_status env msg node last t).0.0 ≡ true
      → (node.rerun_policy ≡ node_rerun) × (int_lt (env.now t) (grace_end node last.ts) ≡ false)
  unfolding check_last_batch_status
  abandoned_batch-proceeds node last t hl ht = (ground arith, ground arith)

  -- A batch that another worker has started is touched again only if the policy of its node is to
  -- run it again and the time that the other worker is given has passed.
  pub abandoned_batch-touched :
      (s : Script) (node : ScriptNode) (last : LastStatus) (t : Trace)
      → touched t ≡ false
      → last.status ≡ node_batch_start
      → touched (check_batch env msg s node last t).1 ≡ true
      → (node.rerun_policy ≡ node_rerun) × (int_lt (env.now t) (grace_end node last.ts) ≡ false)
  abandoned_batch-touched s node last t h hl ht =
      abandoned_batch-proceeds node last t hl
        (elim (Bool-cases (proceeds (check_last_batch_status env msg node last t).0.0)) [
          | inl h1 ↦ h1
          | inr h0 ↦ ground (arith, check_batch-untouched s node last t h h0)
        ])

  finished_batch-load_batch :
      (rows : List Row) (s : Script) (node : ScriptNode) (last : LastStatus) (t : Trace)
      → touched t ≡ false
      → env.single_batch_rows t ≡ got rows
      → single_batch_history_rows_to_last_batch_status rows ("ts" ∷ "status" ∷ []) ≡ ok last
      → is_terminal last.status ≡ true
      → touched (load_batch env msg s node t).1 ≡ false
  unfolding load_batch touched
  finished_batch-load_batch rows s node last t h hr hs hl =
      let t' = get_single_batch_status_rows ∷ t in
      ground (
        arith,
        check_batch-untouched s node last t' h (check_last_batch_status-terminal node last t' hl),
      )

  module _ (rows : List Row) (last : LastStatus)
      (hr : (t : Trace) → env.single_batch_rows t ≡ got rows)
      (hs : single_batch_history_rows_to_last_batch_status rows ("ts" ∷ "status" ∷ []) ≡ ok last)
      (hl : is_terminal last.status ≡ true) where
    finished_batch-use_script :
        (i : ScriptInit) (t : Trace)
        → touched t ≡ false
        → touched (use_script env msg i t).1 ≡ false
    unfolding use_script find_node if_proceed init_ctx_script
    finished_batch-use_script (script_loaded s) t h =
        elim (lookup msg.target_node_name s.script_nodes)
          as (λ n. touched (find_node env msg s n t).1 ≡ false) [
            | none ↦ h
            | some node ↦ finished_batch-load_batch rows s node last t h (hr t) hs hl
          ]
    finished_batch-use_script url_problem t h = h
    finished_batch-use_script content_problem t h = h
    finished_batch-use_script connectivity_problem t h = h
    finished_batch-use_script unknown_problem t h = h

    finished_batch-check_run :
        (s : RunStatus) (t : Trace) → touched t ≡ false → touched (check_run env msg s t).1 ≡ false
    unfolding check_run if_proceed load_script touched
    finished_batch-check_run s t h =
        let m = check_run_status env msg s t in
        let h' : touched m.1 ≡ false = (check_run_status-Quiet env msg s t).2 ∙ h in
        elim m.0 as (λ c. touched (if_proceed c (load_script env msg) m.1).1 ≡ false) [
          | proceed ↦ finished_batch-use_script (env.script m.1) (new_script_from_files ∷ m.1) h'
          | further_ack ↦ h'
          | further_retry ↦ h'
        ]

-- When the history of the run says that it is not in progress (it was stopped, it is complete or it
-- never started), its batch is not processed and the data of the batch are not deleted.
pub inactive_run-untouched :
    (env : Env) (msg : BatchMessage) (rows : List Row) (s : RunStatus)
    → env.run_status_rows (db_connect ∷ []) ≡ got rows
    → run_history_rows_to_status rows ≡ ok s
    → int_eq s run_start ≡ false
    → touched (process_data_batch_msg env msg []).1 ≡ false
unfolding process_data_batch_msg touched
inactive_run-untouched env msg rows s hr hs hn =
    on_error_ind (Untouched (db_connect ∷ [])) (env.connect []) _ _ (λ e. refl)
      (load_run-untouched env msg rows s (db_connect ∷ []) refl hr hs hn)

-- A redelivered message whose batch has ended, with whatever outcome, does not have the batch
-- processed again, and the data of the batch are not deleted.
pub finished_batch-untouched :
    (env : Env) (msg : BatchMessage) (rows : List Row) (last : LastStatus)
    → ((t : Trace) → env.single_batch_rows t ≡ got rows)
    → single_batch_history_rows_to_last_batch_status rows ("ts" ∷ "status" ∷ []) ≡ ok last
    → is_terminal last.status ≡ true
    → touched (process_data_batch_msg env msg []).1 ≡ false
unfolding process_data_batch_msg load_run touched
finished_batch-untouched env msg rows last hr hs hl =
    let t = db_connect ∷ [] in
    let t' = get_run_status_rows ∷ t in
    on_error_ind (Untouched t) (env.connect []) _ _ (λ e. refl)
      (if_ind (Untouched t) (int_lt (pos 0) msg.run_id) _ _
        (λ _.
          on_reply_ind (Untouched t') (env.run_status_rows t) _ _ (λ e. refl)
            λ rs.
              on_reply_ind (Untouched t') (decoded (run_history_rows_to_status rs)) _ _ (λ e. refl)
                (λ s. finished_batch-check_run env msg rows last hr hs hl s t' refl))
        (λ _. refl))
