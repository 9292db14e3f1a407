-- ===== src/Api/Calls.antt =====
-- What the traces of pkg/api/message_handler.go tell, and rules for the statements about a trace
-- before and after a step of the handler.
use capillaries.Prelude.{◌≡◌, Bool, true, false, not, ◌&&◌, ◌||◌, Option, none, some, [], ◌∷◌, any}
use capillaries.Prelude.Int.{ℤ, int_eq}
use capillaries.Wfmodel.Status.{NodeBatchStatus, node_batch_start, node_batch_success}
use capillaries.Api.World.{
  Call, Env, Error, set_batch_status, call_processor, delete_data_and_unique_indexes, Trace,
}

abbrev pub is_processing : Call → Bool
is_processing (call_processor a b) = true
is_processing _ = false

abbrev pub is_start : Call → Bool
is_start (set_batch_status s) = int_eq s node_batch_start
is_start _ = false

-- A call that neither processes the batch nor marks it successful.
abbrev pub is_quiet : Call → Bool
is_quiet (call_processor a b) = false
is_quiet (set_batch_status s) = not (int_eq s node_batch_success)
is_quiet _ = true

-- The processor has been called for these runs of the read table and of the lookup table.
abbrev calls_with : ℤ → ℤ → Call → Bool
calls_with a b (call_processor c d) = int_eq c a && int_eq d b
calls_with a b _ = false

unfoldable pub called_with : ℤ → ℤ → Trace → Bool
called_with a b t = any (calls_with a b) t

unfoldable pub processed : Trace → Bool
processed t = any is_processing t

-- The data of an abandoned batch have been deleted.
abbrev pub is_deletion : Call → Bool
is_deletion delete_data_and_unique_indexes = true
is_deletion _ = false

unfoldable pub cleaned : Trace → Bool
cleaned t = any is_deletion t

-- The answer to the mark of the start lets the batch be processed: the mark was written, or it was
-- refused as a duplicate and the data of the abandoned batch had been deleted.
abbrev pub allows_start : Option Error → Trace → Bool
allows_start none t = true
allows_start (some e) t = not e.is_conn && e.is_duplicate && cleaned t

abbrev touches : Call → Bool
touches (call_processor a b) = true
touches delete_data_and_unique_indexes = true
touches _ = false

-- Whether the batch's data are written or deleted.
unfoldable pub touched : Trace → Bool
touched t = any touches t

-- The status of the batch that is written last.
unfoldable pub last_written : Trace → Option NodeBatchStatus
last_written [] = none
last_written (set_batch_status s ∷ t) = some s
last_written (c ∷ t) = last_written t

module _ (env : Env) where
  abbrev marks_start : Call → Trace → Bool
  marks_start c t = is_start c && allows_start (env.write c t) t

  unfoldable pub started : Trace → Bool
  started [] = false
  started (c ∷ t) = marks_start c t || started t

  abbrev call_is_ordered : Call → Trace → Bool
  unfolding processed started
  call_is_ordered (call_processor a b) t = started t && not (processed t)
  call_is_ordered (set_batch_status s) t = not (int_eq s node_batch_success) || processed t
  call_is_ordered _ t = true

  -- The processor is called at most once and after the batch is marked started, and the batch is
  -- marked successful only after that.
  unfoldable pub is_ordered : Trace → Bool
  unfolding processed started
  is_ordered [] = true
  is_ordered (c ∷ t) = call_is_ordered c t && is_ordered t

  -- A step that leaves all as they are.
  abbrev pub Quiet : Trace → Trace → Type 0
  Quiet t t' =
      (processed t' ≡ processed t)
      × (is_ordered t' ≡ is_ordered t)
      × (touched t' ≡ touched t)
      × (cleaned t' ≡ cleaned t)
