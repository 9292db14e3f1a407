-- ===== src/Wfmodel/RunHistory/Current.antt =====
-- The current status of a run: RunHistoryEventsToRunStatusMap and RunHistoryRowsToStatus of
-- pkg/wfmodel/run_history.go.
use capillaries.Prelude.{
  ◌≡◌, refl, sym, ◌∙◌, ap, arith, Bool, true, Option, none, some, List, [], ◌∷◌, any, inl, inr,
  Bool-cases, if◌then◌else◌,
}
use capillaries.Prelude.Int.{ℤ, int_lt, int_eq, eq_of_int_eq}
use capillaries.Prelude.IntMap.{IntMap, lookup, put, lookup-put}
use capillaries.Wfmodel.Row.{Row, ok, epoch}
use capillaries.Wfmodel.Status.{RunStatus, run_start, run_complete, run_stop}
use capillaries.Wfmodel.RunHistory.{
  RunHistoryEvent, merge_run_status, run_status_loop, run_history_events_to_run_status_map,
  new_run_history_event_from_map, run_history_rows_to_status, run_rows_loop, later_run_status,
}

abbrev pub has_status : RunStatus → List RunStatus → Bool
has_status s l = any (λ t. int_eq t s) l

-- Stop, else complete, else start, if one of the statuses is that; else the first.
abbrev pub by_priority : RunStatus → List RunStatus → RunStatus
by_priority first rest =
    if has_status run_stop (first ∷ rest)
    then run_stop
    else if has_status run_complete (first ∷ rest)
    then run_complete
    else if has_status run_start (first ∷ rest)
    then run_start
    else first

abbrev pub prioritized : List RunStatus → Option RunStatus
prioritized [] = none
prioritized (s ∷ l) = some (by_priority s l)

-- The statuses of the events of a run, in order.
abbrev pub statuses_of_run : ℤ → List RunHistoryEvent → List RunStatus
statuses_of_run r [] = []
statuses_of_run r (e ∷ es) =
    let rest = statuses_of_run r es in if int_eq e.run_id r then e.status ∷ rest else rest

abbrev with_current : Option RunStatus → List RunStatus → Option RunStatus
with_current none l = prioritized l
with_current (some cur) l = some (by_priority cur l)

with_current-merge :
    (o : Option RunStatus) (s : RunStatus) (l : List RunStatus)
    → with_current (some (merge_run_status s o)) l ≡ with_current o (s ∷ l)
unfolding merge_run_status
with_current-merge none s l = refl
with_current-merge (some cur) s l = ground arith

with_current-nil : (o : Option RunStatus) → with_current o [] ≡ o
with_current-nil none = refl
with_current-nil (some cur) = elim (Bool-cases (int_eq cur run_stop)) [
  | inl e ↦ rw (eq_of_int_eq cur run_stop e)
  | inr e ↦ elim (Bool-cases (int_eq cur run_complete)) [
    | inl f ↦ rw (eq_of_int_eq cur run_complete f)
    | inr f ↦ elim (Bool-cases (int_eq cur run_start)) [
      | inl g ↦ rw (eq_of_int_eq cur run_start g)
      | inr g ↦ rw (e, f, g)
    ]
  ]
]

lookup-run_status_loop :
    (es : List RunHistoryEvent) (m : IntMap RunStatus) (r : ℤ)
    → lookup r (run_status_loop es m) ≡ with_current (lookup r m) (statuses_of_run r es)
unfolding run_status_loop
lookup-run_status_loop [] m r = sym (with_current-nil (lookup r m))
lookup-run_status_loop (e ∷ es) m r =
    let s = merge_run_status e.status (lookup e.run_id m) in
    let m' = put e.run_id s m in
    lookup-run_status_loop es m' r ∙ elim (Bool-cases (int_eq e.run_id r)) [
      | inr f ↦
          let kept : lookup r m' ≡ lookup r m = ground (arith, lookup-put e.run_id r s m) in
          rw (kept, f)
      | inl t ↦
          let written : lookup r m' ≡ some s = ground (arith, lookup-put e.run_id r s m) in
          let here : lookup r m ≡ lookup e.run_id m =
            ap (λ k. lookup k m) (sym (eq_of_int_eq e.run_id r t)) in
          rw (written, t, here)
            (with_current-merge (lookup e.run_id m) e.status (statuses_of_run r es))
    ]

-- The status that the map has for a run is stop if one of its events is a stop, else complete if
-- one is that, else start if one is that, else its first status; so a stop is final, in whichever
-- order the events come. A run without an event is not in the map.
pub run_status_by_priority :
    (es : List RunHistoryEvent) (r : ℤ)
    → lookup r (run_history_events_to_run_status_map es) ≡ prioritized (statuses_of_run r es)
unfolding run_history_events_to_run_status_map
run_status_by_priority es r = lookup-run_status_loop es [] r ∙ unfold lookup in refl

-- Of two rows with the same time, after the epoch, the one that the database returns first gives
-- the status of the run.
pub run_status_tie :
    (r r' : Row) (e e' : RunHistoryEvent)
    → new_run_history_event_from_map r ("ts" ∷ "status" ∷ []) ≡ ok e
    → new_run_history_event_from_map r' ("ts" ∷ "status" ∷ []) ≡ ok e'
    → e.ts ≡ e'.ts
    → int_lt epoch e.ts ≡ true
    → (run_history_rows_to_status (r ∷ r' ∷ []) ≡ ok e.status)
      × (run_history_rows_to_status (r' ∷ r ∷ []) ≡ ok e'.status)
unfolding run_history_rows_to_status run_rows_loop later_run_status
run_status_tie r r' e e' h h' same later = rw (h, h') (ground arith, ground arith)
