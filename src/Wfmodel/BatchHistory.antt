-- ===== src/Wfmodel/BatchHistory.antt =====
-- pkg/wfmodel/batch_history.go: the history of a batch and of all batches of a node.
pub mod Last
pub mod Completion
use Prim.Native.String.{String}
use text.Mathlib.Text.{◌==◌ as str_eq}
use capillaries.Prelude.{
  ◌≡◌, refl, arith, ℕ, zero, suc, Bool, true, false, not, ◌&&◌, ◌||◌, Option, none, some, List, [],
  ◌∷◌, length, filter, if◌then◌else◌,
}
use capillaries.Prelude.Int.{ℤ, pos, negsuc, int_lt, int_eq}
use capillaries.Prelude.Text.{Text}
use capillaries.Prelude.Sort.{sort_func}
use capillaries.Wfmodel.Row.{
  Time, epoch, zero_time, Row, Result, ok, err, RowError, unknown_field, conflicting_total,
  invalid_batch, ◌>>=◌, read_time_from_row, read_int16_from_row, read_int64_from_row,
  read_string_from_row, read_node_batch_status_from_row,
}
use capillaries.Wfmodel.Status.{
  NodeBatchStatus, node_batch_none, node_batch_start, node_batch_success, node_batch_fail,
  node_batch_run_stop_received,
}

pub record BatchHistoryEvent : Type 0 where
  pub ts : Time
  pub run_id : ℤ
  pub script_node : Text
  pub batch_idx : ℤ
  pub batches_total : ℤ
  pub status : NodeBatchStatus
  pub first_token : ℤ
  pub last_token : ℤ
  pub instance_name : Text
  pub thread : ℤ
  pub comment : Text

-- `&BatchHistoryEvent{}`
abbrev pub blank_batch_event : BatchHistoryEvent
blank_batch_event = record {
  ts = zero_time;
  run_id = pos 0;
  script_node = [];
  batch_idx = pos 0;
  batches_total = pos 0;
  status = node_batch_none;
  first_token = pos 0;
  last_token = pos 0;
  instance_name = [];
  thread = pos 0;
  comment = [];
}

abbrev pub batch_history_event_all_fields : List String
batch_history_event_all_fields =
    "ts" ∷ "run_id" ∷ "script_node" ∷ "batch_idx" ∷ "batches_total" ∷ "status" ∷ "first_token"
    ∷ "last_token" ∷ "instance" ∷ "thread" ∷ "comment" ∷ []

-- One round of the loop over the fields.
read_batch_field : String → Row → BatchHistoryEvent → Result BatchHistoryEvent
read_batch_field name r e =
    if str_eq name "ts"
    then (do v ← read_time_from_row name r; ok (record e { ts = v }))
    else if str_eq name "run_id"
    then (do v ← read_int16_from_row name r; ok (record e { run_id = v }))
    else if str_eq name "script_node"
    then (do v ← read_string_from_row name r; ok (record e { script_node = v }))
    else if str_eq name "batch_idx"
    then (do v ← read_int16_from_row name r; ok (record e { batch_idx = v }))
    else if str_eq name "batches_total"
    then (do v ← read_int16_from_row name r; ok (record e { batches_total = v }))
    else if str_eq name "status"
    then (do v ← read_node_batch_status_from_row name r; ok (record e { status = v }))
    else if str_eq name "first_token"
    then (do v ← read_int64_from_row name r; ok (record e { first_token = v }))
    else if str_eq name "last_token"
    then (do v ← read_int64_from_row name r; ok (record e { last_token = v }))
    else if str_eq name "instance"
    then (do v ← read_string_from_row name r; ok (record e { instance_name = v }))
    else if str_eq name "thread"
    then (do v ← read_int64_from_row name r; ok (record e { thread = v }))
    else if str_eq name "comment"
    then (do v ← read_string_from_row name r; ok (record e { comment = v }))
    else err (unknown_field name)

read_batch_fields : List String → Row → BatchHistoryEvent → Result BatchHistoryEvent
unfolding read_batch_field
read_batch_fields [] r e = ok e
read_batch_fields (name ∷ names) r e = do
  e' ← read_batch_field name r e
  read_batch_fields names r e'

unfoldable pub new_batch_history_event_from_map : Row → List String → Result BatchHistoryEvent
unfolding read_batch_fields
new_batch_history_event_from_map r fields = read_batch_fields fields r blank_batch_event

-- The rows, deserialized one after another; the first failure ends the loop.
unfoldable pub batch_events : List String → List Row → Result (List BatchHistoryEvent)
batch_events fields [] = ok []
batch_events fields (r ∷ rows) = do
  e ← new_batch_history_event_from_map r fields
  es ← batch_events fields rows
  ok (e ∷ es)

-- What the first row contributes to rows that all deserialize.
pub batch_events-cons :
    (fields : List String) (r : Row) (rows : List Row) (es : List BatchHistoryEvent)
    → batch_events fields (r ∷ rows) ≡ ok es
    → (e : BatchHistoryEvent) × (rest : List BatchHistoryEvent) × (new_batch_history_event_from_map
          r fields
        ≡ ok e)
      × (batch_events fields rows ≡ ok rest)
      × (es ≡ e ∷ rest)
unfolding batch_events
batch_events-cons fields r rows es h =
    go (new_batch_history_event_from_map r fields) (batch_events fields rows) refl refl h
  where
    go :
        (m : Result BatchHistoryEvent) (n : Result (List BatchHistoryEvent))
        → new_batch_history_event_from_map r fields ≡ m
        → batch_events fields rows ≡ n
        → (do e ← m; es ← n; ok (e ∷ es)) ≡ ok es
        → (e : BatchHistoryEvent) × (rest : List BatchHistoryEvent)
          × (new_batch_history_event_from_map r fields ≡ ok e)
          × (batch_events fields rows ≡ ok rest)
          × (es ≡ e ∷ rest)
    go (ok e) (ok rest) p q h = (e, rest, p, q, ground arith)
    go (ok e) (err x) p q h = absurd (ground arith)
    go (err x) n p q h = absurd (ground arith)

abbrev earlier_batch_event : BatchHistoryEvent → BatchHistoryEvent → Bool
earlier_batch_event l r = int_lt l.ts r.ts

unfoldable pub batch_history_rows_to_events : List Row → Result (List BatchHistoryEvent)
batch_history_rows_to_events rows = do
  es ← batch_events batch_history_event_all_fields rows
  ok (sort_func earlier_batch_event es)

-- The status and the time that the loop over the rows has found so far.
pub record LastStatus : Type 0 where
  pub status : NodeBatchStatus
  pub ts : Time

abbrev pub no_status : LastStatus
no_status = record { status = node_batch_none; ts = epoch }

unfoldable pub later_status : LastStatus → BatchHistoryEvent → LastStatus
later_status s e =
    if int_lt s.ts e.ts || (int_eq e.ts s.ts && int_lt s.status e.status)
    then record { status = e.status; ts = e.ts }
    else s

unfoldable pub last_status_loop : List String → List Row → LastStatus → Result LastStatus
last_status_loop fields [] s = ok s
last_status_loop fields (r ∷ rows) s = do
  e ← new_batch_history_event_from_map r fields
  last_status_loop fields rows (later_status s e)

unfoldable pub single_batch_history_rows_to_last_batch_status :
    List Row → List String → Result LastStatus
unfolding last_status_loop
single_batch_history_rows_to_last_batch_status rows fields = last_status_loop fields rows no_status

-- The variables of the loop over the rows of all batches.
pub record BatchesFound : Type 0 where
  pub batches_total : ℤ
  pub in_progress : List ℤ
  pub fail_found : Bool
  pub stop_received_found : Bool

abbrev pub no_batches : BatchesFound
no_batches = record {
  batches_total = negsuc 0;
  in_progress = [];
  fail_found = false;
  stop_received_found = false;
}

-- 0, 1, .., n - 1, counted up from `i`.
abbrev pub indices_from : ℕ → ℕ → List ℤ
indices_from i zero = []
indices_from i (suc n) = pos i ∷ indices_from (suc i) n

-- `for i := 0; i < total; i++`
abbrev pub indices : ℤ → List ℤ
indices (pos n) = indices_from 0 n
indices (negsuc n) = []

abbrev pub without_index : ℤ → List ℤ → List ℤ
without_index i l = filter (λ j. not (int_eq j i)) l

abbrev pub is_terminal : NodeBatchStatus → Bool
is_terminal s =
    int_eq s node_batch_success || int_eq s node_batch_fail || int_eq s node_batch_run_stop_received

-- The part of a round behind the checks.
unfoldable pub note_batch : BatchHistoryEvent → BatchesFound → BatchesFound
note_batch e s = record s {
  in_progress =
      if is_terminal e.status then without_index e.batch_idx s.in_progress else s.in_progress;
  fail_found = s.fail_found || int_eq e.status node_batch_fail;
  stop_received_found = s.stop_received_found || int_eq e.status node_batch_run_stop_received;
}

unfoldable pub check_batch : BatchHistoryEvent → BatchesFound → Result BatchesFound
unfolding note_batch
check_batch e s =
    if int_lt e.batch_idx e.batches_total && int_lt (pos 0) e.batches_total
    then ok (note_batch e s)
    else err (invalid_batch e.batch_idx e.batches_total)

unfoldable pub batch_round : BatchHistoryEvent → BatchesFound → Result BatchesFound
unfolding check_batch
batch_round e s =
    if int_eq s.batches_total (negsuc 0)
    then check_batch e
        (record s { batches_total = e.batches_total; in_progress = indices e.batches_total })
    else if int_eq e.batches_total s.batches_total
    then check_batch e s
    else err (conflicting_total s.batches_total e.batches_total)

unfoldable pub batches_loop : List String → List Row → BatchesFound → Result BatchesFound
batches_loop fields [] s = ok s
batches_loop fields (r ∷ rows) s = do
  e ← new_batch_history_event_from_map r fields
  s' ← batch_round e s
  batches_loop fields rows s'

-- The status of the node, the number of batches in progress and the total.
pub record NodeStatusFound : Type 0 where
  pub status : NodeBatchStatus
  pub in_progress : ℕ
  pub batches_total : ℤ

-- Fail has the upper hand over stop, and stop over success.
abbrev pub finished_status : BatchesFound → NodeBatchStatus
finished_status s =
    if s.fail_found
    then node_batch_fail
    else if s.stop_received_found
    then node_batch_run_stop_received
    else node_batch_success

abbrev is_empty : List ℤ → Bool
is_empty [] = true
is_empty (i ∷ l) = false

unfoldable pub conclude_batches : BatchesFound → NodeStatusFound
conclude_batches s = record {
  status = if is_empty s.in_progress then finished_status s else node_batch_start;
  in_progress = length s.in_progress;
  batches_total = s.batches_total;
}

unfoldable pub all_batch_history_rows_to_node_status :
    List Row → List String → Result NodeStatusFound
unfolding batches_loop conclude_batches
all_batch_history_rows_to_node_status rows fields = do
  s ← batches_loop fields rows no_batches
  ok (conclude_batches s)
