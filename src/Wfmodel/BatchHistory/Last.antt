-- ===== src/Wfmodel/BatchHistory/Last.antt =====
-- The last status of a batch, SingleBatchHistoryRowsToLastBatchStatus of
-- pkg/wfmodel/batch_history.go.
use Prim.Native.String.{String}
use mathlib.Core.Logic.{∥∥₁_elim}
use mathlib.Core.List.{Perm, Permᴰ}
use capillaries.Prelude.{
  ◌≡◌, refl, sym, ◌∙◌, ap, Bool, true, false, ◌&&◌, ◌||◌, List, [], ◌∷◌, All, Any, ◌⊎◌, inl, inr,
  Bool-cases, arith,
}
use capillaries.Prelude.Int.{int_lt, int_eq}
use capillaries.Wfmodel.Row.{Row, ok}
use capillaries.Wfmodel.BatchHistory.{
  BatchHistoryEvent, LastStatus, no_status, later_status, last_status_loop, batch_events,
  batch_events-cons, single_batch_history_rows_to_last_batch_status,
}

-- The loop over events that are deserialized already.
unfoldable pub last_status : List BatchHistoryEvent → LastStatus → LastStatus
last_status [] s = s
last_status (e ∷ es) s = last_status es (later_status s e)

last_status_loop-eq :
    (fields : List String) (rows : List Row) (es : List BatchHistoryEvent) (s : LastStatus)
    → batch_events fields rows ≡ ok es
    → last_status_loop fields rows s ≡ ok (last_status es s)
unfolding last_status_loop last_status
last_status_loop-eq fields [] es s h = unfold batch_events in ground arith
last_status_loop-eq fields (r ∷ rows) es s h =
    let (e, es', first, rest, shape) = batch_events-cons fields r rows es h in
    rw (shape, first) (last_status_loop-eq fields rows es' (later_status s e) rest)

-- Whether an event is later than what was found: by time, and by the status at the same time.
abbrev pub is_later : LastStatus → BatchHistoryEvent → Bool
is_later s e = int_lt s.ts e.ts || (int_eq e.ts s.ts && int_lt s.status e.status)

later_status_not : (s : LastStatus) (e : BatchHistoryEvent) → is_later (later_status s e) e ≡ false
unfolding later_status
later_status_not s e = ground arith

later_status-keeps :
    (s : LastStatus) (e f : BatchHistoryEvent)
    → is_later s f ≡ false
    → is_later (later_status s e) f ≡ false
unfolding later_status
later_status-keeps s e f h = ground arith

last_status-keeps :
    (es : List BatchHistoryEvent) (s : LastStatus) (f : BatchHistoryEvent)
    → is_later s f ≡ false
    → is_later (last_status es s) f ≡ false
unfolding last_status
last_status-keeps [] s f h = h
last_status-keeps (e ∷ es) s f h =
    last_status-keeps es (later_status s e) f (later_status-keeps s e f h)

last_status-latest :
    (es : List BatchHistoryEvent) (s : LastStatus)
    → All (λ e. is_later (last_status es s) e ≡ false) es
unfolding last_status
last_status-latest [] s = tt
last_status-latest (e ∷ es) s = (
  last_status-keeps es (later_status s e) e (later_status_not s e),
  last_status-latest es (later_status s e),
)

abbrev pub Shows : LastStatus → BatchHistoryEvent → Type 0
Shows s e = (s.status ≡ e.status) × (s.ts ≡ e.ts)

last_status-shown :
    (es : List BatchHistoryEvent) (s : LastStatus)
    → (last_status es s ≡ s) ⊎ Any (Shows (last_status es s)) es
unfolding last_status
last_status-shown [] s = inl refl
last_status-shown (e ∷ es) s = elim (last_status-shown es (later_status s e)) [
  | inl p ↦ elim (Bool-cases (is_later s e)) [
    | inl new ↦ inr (inl (rw p (unfold later_status in rw new (refl, refl))))
    | inr old ↦ inl (p ∙ unfold later_status in rw old)
  ]
  | inr q ↦ inr (inr q)
]

-- The event as a status found.
abbrev found : BatchHistoryEvent → LastStatus
found e = record { status = e.status; ts = e.ts }

take_later :
    (s : LastStatus) (e : BatchHistoryEvent) → is_later s e ≡ true → later_status s e ≡ found e
unfolding later_status
take_later s e h = rw h

keep_later : (s : LastStatus) (e : BatchHistoryEvent) → is_later s e ≡ false → later_status s e ≡ s
unfolding later_status
keep_later s e h = rw h

later_total :
    (e f : BatchHistoryEvent)
    → is_later (found e) f ≡ false
    → is_later (found f) e ≡ false
    → found e ≡ found f
later_total e f h k = ground arith

later_asymm : (e f : BatchHistoryEvent) → is_later (found e) f ≡ true → is_later (found f) e ≡ false
later_asymm e f h = ground arith

later_found_comm : (e f : BatchHistoryEvent) → later_status (found e) f ≡ later_status (found f) e
later_found_comm e f = elim (Bool-cases (is_later (found e) f)) [
  | inl p ↦ take_later (found e) f p ∙ sym (keep_later (found f) e (later_asymm e f p))
  | inr p ↦ elim (Bool-cases (is_later (found f) e)) [
    | inl q ↦ keep_later (found e) f p ∙ sym (take_later (found f) e q)
    | inr q ↦ keep_later (found e) f p ∙ later_total e f p q ∙ sym (keep_later (found f) e q)
  ]
]

later_mixed :
    (s : LastStatus) (e f : BatchHistoryEvent)
    → is_later s e ≡ true
    → is_later s f ≡ false
    → later_status (later_status s e) f ≡ later_status (later_status s f) e
later_mixed s e f p q =
    keep_later (later_status s e) f (later_status-keeps s e f q)
    ∙ ap (λ t. later_status t e) (sym (keep_later s f q))

later_status_comm :
    (s : LastStatus) (e f : BatchHistoryEvent)
    → later_status (later_status s e) f ≡ later_status (later_status s f) e
later_status_comm s e f = elim (Bool-cases (is_later s e)) [
  | inl p ↦ elim (Bool-cases (is_later s f)) [
    | inl q ↦
        ap (λ t. later_status t f) (take_later s e p)
        ∙ later_found_comm e f
        ∙ ap (λ t. later_status t e) (sym (take_later s f q))
    | inr q ↦ later_mixed s e f p q
  ]
  | inr p ↦ elim (Bool-cases (is_later s f)) [
    | inl q ↦ sym (later_mixed s f e q p)
    | inr q ↦
        ap (λ t. later_status t f) (keep_later s e p)
        ∙ keep_later s f q
        ∙ sym (ap (λ t. later_status t e) (keep_later s f q) ∙ keep_later s e p)
  ]
]

reorder :
    {es es' : List BatchHistoryEvent}
    → Permᴰ es es'
    → (s : LastStatus) → last_status es s ≡ last_status es' s
unfolding last_status
reorder Permᴰ.nil s = refl
reorder (Permᴰ.cons {b = b} {l₁ = l₁} p q) s =
    ap (λ e. last_status l₁ (later_status s e)) p ∙ reorder q (later_status s b)
reorder (Permᴰ.swap {a = a} {b = b} {a' = a'} {l = l} p q) s = ap (last_status l) (
    later_status_comm s a b
    ∙ ap (λ e. later_status (later_status s e) a) q
    ∙ ap (λ e. later_status (later_status s a') e) p)
reorder (Permᴰ.trans p q) s = reorder p s ∙ reorder q s

LastStatus-set : IsSet LastStatus
LastStatus-set = hlevel

-- For rows that all deserialize, the status of the batch is that of an event which no other event
-- follows, in time or, at the same time, in the priority of its status; a batch with no event
-- after the epoch has status none.
pub last_status_is_latest :
    (fields : List String) (rows : List Row) (es : List BatchHistoryEvent)
    → batch_events fields rows ≡ ok es
    → (s : LastStatus) × (single_batch_history_rows_to_last_batch_status rows fields ≡ ok s)
      × All (λ e. is_later s e ≡ false) es
      × ((s ≡ no_status) ⊎ Any (Shows s) es)
unfolding single_batch_history_rows_to_last_batch_status
last_status_is_latest fields rows es h = (
  last_status es no_status,
  last_status_loop-eq fields rows es no_status h,
  last_status-latest es no_status,
  last_status-shown es no_status,
)

-- The order in which the database returns the rows does not matter.
pub last_status_order_free :
    (fields : List String) (rows rows' : List Row) (es es' : List BatchHistoryEvent)
    → batch_events fields rows ≡ ok es
    → batch_events fields rows' ≡ ok es'
    → Perm es es'
    → single_batch_history_rows_to_last_batch_status rows fields
      ≡ single_batch_history_rows_to_last_batch_status rows' fields
unfolding single_batch_history_rows_to_last_batch_status
last_status_order_free fields rows rows' es es' h k p =
    last_status_loop-eq fields rows es no_status h
    ∙ ap ok (∥∥₁_elim p (LastStatus-set _ _) (λ q. reorder q no_status))
    ∙ sym (last_status_loop-eq fields rows' es' no_status k)
