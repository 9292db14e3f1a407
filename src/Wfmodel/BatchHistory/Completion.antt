-- ===== src/Wfmodel/BatchHistory/Completion.antt =====
-- When a node is complete, AllBatchHistoryRowsToNodeStatus of pkg/wfmodel/batch_history.go.
use Prim.Native.String.{String}
use capillaries.Prelude.{
  ◌≡◌, sym, ◌∙◌, ap, Bool, true, false, not, ◌&&◌, ◌||◌, List, [], ◌∷◌, any, filter, filter-all,
  length, if◌then◌else◌, arith,
}
use capillaries.Prelude.Int.{ℤ, negsuc, int_eq}
use capillaries.Wfmodel.Row.{Row, Result, ok, ◌>>=◌, >>=-ext, >>=-eq_ok, ok_injective}
use capillaries.Wfmodel.Status.{
  NodeBatchStatus, node_batch_start, node_batch_success, node_batch_fail,
  node_batch_run_stop_received,
}
use capillaries.Wfmodel.BatchHistory.{
  BatchHistoryEvent, BatchesFound, NodeStatusFound, no_batches, batch_events, batch_events-cons,
  batches_loop, batch_round, check_batch, note_batch, indices, without_index, is_terminal,
  conclude_batches, all_batch_history_rows_to_node_status,
}

-- Whether a batch has an event that ends it: success, fail or stop received.
abbrev pub ended : List BatchHistoryEvent → ℤ → Bool
ended es i = any (λ e. is_terminal e.status && int_eq i e.batch_idx) es

abbrev pub open_batches : List BatchHistoryEvent → List ℤ → List ℤ
open_batches es l = filter (λ i. not (ended es i)) l

abbrev pub any_fail : List BatchHistoryEvent → Bool
any_fail es = any (λ e. int_eq e.status node_batch_fail) es

abbrev pub any_stop : List BatchHistoryEvent → Bool
any_stop es = any (λ e. int_eq e.status node_batch_run_stop_received) es

-- The rounds over events that are deserialized already.
rounds : List BatchHistoryEvent → BatchesFound → Result BatchesFound
rounds [] s = ok s
rounds (e ∷ es) s = do s' ← batch_round e s; rounds es s'

batches_loop-eq :
    (fields : List String) (rows : List Row) (es : List BatchHistoryEvent) (s : BatchesFound)
    → batch_events fields rows ≡ ok es
    → batches_loop fields rows s ≡ rounds es s
unfolding batches_loop rounds
batches_loop-eq fields [] es s h = unfold batch_events in ground arith
batches_loop-eq fields (r ∷ rows) es s h =
    let (e, es', first, rest, shape) = batch_events-cons fields r rows es h in
    rw (shape, first)
      (>>=-ext (batch_round e s) (batches_loop fields rows) (rounds es')
        (λ s'. batches_loop-eq fields rows es' s' rest))

-- What the loop has found, as it should follow from events.
record Follows (es : List BatchHistoryEvent) (s t : BatchesFound) : Type 0 where
  total : t.batches_total ≡ s.batches_total
  progress : t.in_progress ≡ open_batches es s.in_progress
  fail : t.fail_found ≡ (s.fail_found || any_fail es)
  stop : t.stop_received_found ≡ (s.stop_received_found || any_stop es)

open_batches-cons :
    (e : BatchHistoryEvent) (es : List BatchHistoryEvent) (l : List ℤ)
    → open_batches es (if is_terminal e.status then without_index e.batch_idx l else l)
      ≡ open_batches (e ∷ es) l
open_batches-cons e es [] = ground arith
open_batches-cons e es (i ∷ l) = ground (arith, open_batches-cons e es l)

note_batch-Follows :
    (e : BatchHistoryEvent) (es : List BatchHistoryEvent) (s t : BatchesFound)
    → Follows es (note_batch e s) t
    → Follows (e ∷ es) s t
unfolding note_batch
note_batch-Follows e es s t f = record {
  total = f.total;
  progress = f.progress ∙ open_batches-cons e es s.in_progress;
  fail = f.fail ∙ ground arith;
  stop = f.stop ∙ ground arith;
}

batch_round-ok :
    (e : BatchHistoryEvent) (s t : BatchesFound)
    → int_eq s.batches_total (negsuc 0) ≡ false
    → batch_round e s ≡ ok t
    → t ≡ note_batch e s
unfolding batch_round check_batch
batch_round-ok e s t old h = ground arith

rounds-Follows :
    (es : List BatchHistoryEvent) (s t : BatchesFound)
    → int_eq s.batches_total (negsuc 0) ≡ false
    → rounds es s ≡ ok t
    → Follows es s t
unfolding rounds
rounds-Follows [] s t old h = record {
  total = ground arith;
  progress = rw filter-all (ground arith);
  fail = ground arith;
  stop = ground arith;
}
rounds-Follows (e ∷ es) s t old h =
    let (s', first, rest) = >>=-eq_ok (batch_round e s) (rounds es) h in
    let noted : s' ≡ note_batch e s = batch_round-ok e s s' old first in
    note_batch-Follows e es s t
      (rounds-Follows es (note_batch e s) t (unfold note_batch in old) (rw noted at rest))

first_round-ok :
    (e : BatchHistoryEvent) (t : BatchesFound)
    → batch_round e no_batches ≡ ok t
    → (t
        ≡ note_batch e (record no_batches {
          batches_total = e.batches_total;
          in_progress = indices e.batches_total;
        }))
      × (int_eq t.batches_total (negsuc 0) ≡ false)
unfolding batch_round check_batch note_batch
first_round-ok e t h = ground arith

abbrev is_nil : List ℤ → Bool
is_nil [] = true
is_nil (i ∷ l) = false

-- What the first round starts from.
abbrev begun : BatchHistoryEvent → BatchesFound
begun e = record no_batches {
  batches_total = e.batches_total;
  in_progress = indices e.batches_total;
}

all_rounds-Follow :
    (e : BatchHistoryEvent) (es : List BatchHistoryEvent) (t : BatchesFound)
    → rounds (e ∷ es) no_batches ≡ ok t
    → Follows (e ∷ es) (begun e) t
unfolding rounds
all_rounds-Follow e es t h =
    let (s', first, rest) = >>=-eq_ok (batch_round e no_batches) (rounds es) h in
    let (noted, old) = first_round-ok e s' first in
    note_batch-Follows e es (begun e) t (rw noted at (rounds-Follows es s' t old rest))

abbrev pub status_of : List ℤ → List BatchHistoryEvent → NodeBatchStatus
status_of left es =
    if is_nil left
    then (if any_fail es
        then node_batch_fail
        else if any_stop es
        then node_batch_run_stop_received
        else node_batch_success)
    else node_batch_start

Follows-concluded :
    (e : BatchHistoryEvent) (es : List BatchHistoryEvent) (t : BatchesFound)
    → Follows es (begun e) t
    → let left = open_batches es (indices e.batches_total) in
      let r = conclude_batches t in
      (r.in_progress ≡ length left)
      × (r.batches_total ≡ e.batches_total)
      × (r.status ≡ status_of left es)
unfolding conclude_batches
Follows-concluded e es t f =
    (ap length f.progress, f.total, rw (← f.progress) (ground (arith, f.fail, f.stop)))

-- For rows that all deserialize, and that the function accepts: the node is started while some
-- batch from 0 up to the total has no event that ends it, and the count of batches in progress is
-- that of such batches. When none is left, the node failed if some batch failed; else it was
-- stopped if some batch received a stop; else it succeeded.
pub node_status_is_complete :
    (fields : List String) (rows : List Row) (e : BatchHistoryEvent) (es : List BatchHistoryEvent)
    (r : NodeStatusFound)
    → batch_events fields rows ≡ ok (e ∷ es)
    → all_batch_history_rows_to_node_status rows fields ≡ ok r
    → let left = open_batches (e ∷ es) (indices e.batches_total) in
      (r.in_progress ≡ length left)
      × (r.batches_total ≡ e.batches_total)
      × (r.status ≡ status_of left (e ∷ es))
unfolding all_batch_history_rows_to_node_status
node_status_is_complete fields rows e es r h k =
    let (t, looped, shown) =
      >>=-eq_ok (batches_loop fields rows no_batches) (λ s. ok (conclude_batches s)) k in
    let f =
      all_rounds-Follow e es t (sym (batches_loop-eq fields rows (e ∷ es) no_batches h) ∙ looped) in
    let c = Follows-concluded e (e ∷ es) t f in rw (← ok_injective shown) c
