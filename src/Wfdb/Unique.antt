-- ===== src/Wfdb/Unique.antt =====
-- The run ids that concurrent callers of GetNextRunCounter, pkg/wfdb/run_counter.go, are given.
use mathlib.Core.Path.{subst}
use capillaries.Prelude.{
  ◌≡◌, refl, sym, ◌∙◌, List, [], ◌∷◌, ◌++◌, ℕ, suc, arith, inl, inr, ◌⊎◌, Option, none, some,
  get_elem?, set_at, get_elem?-map, get_elem?-set_at, get_elem?-append,
}
use capillaries.Prelude.Int.{ℤ, pos, ◌≤ℤ◌}
use capillaries.Wfdb.RunCounter.{returned}
use capillaries.Wfdb.Callers.{Keyspace, Reach, at_start, after, no_runs}
use capillaries.Wfdb.Counter.{Counter, CounterStep, idle, join, give, lose, issued, Refines}
use capillaries.Wfdb.Refinement.{Step-IsSimulated}

-- The ids given are in 1 .. last, and no two callers have the same.
record IsConsistent (a : Counter) : Type 0 where
  in_range :
      (i : ℕ) (k : ℤ) → get_elem? a.given i ≡ some (some k) → (pos 1 ≤ℤ k) × (k ≤ℤ pos a.last)
  unique :
      (i j : ℕ) (k : ℤ)
      → get_elem? a.given i ≡ some (some k)
      → get_elem? a.given j ≡ some (some k)
      → i ≡ j

-- An entry after a caller came in is one from before.
append_none :
    (xs : List (Option ℤ)) (i : ℕ) (k : ℤ)
    → get_elem? (xs ++ none ∷ []) i ≡ some (some k)
    → get_elem? xs i ≡ some (some k)
append_none xs i k h = elim (get_elem?-append xs none (some k) i h) [
  | inl e ↦ e
  | inr e ↦ absurd (ground (arith, e))
]

set_entry :
    (xs : List (Option ℤ)) (c i : ℕ) (n : ℕ) (k : ℤ)
    → get_elem? xs c ≡ some none
    → get_elem? (set_at c (some (pos n)) xs) i ≡ some (some k)
    → ((i ≡ c) × (k ≡ pos n)) ⊎ (get_elem? xs i ≡ some (some k))
set_entry xs c i n k h e = ground (arith, get_elem?-set_at c i (some (pos n)) none xs h)

give-IsConsistent :
    (a : Counter) (c : ℕ)
    → IsConsistent a
    → get_elem? a.given c ≡ some none
    → IsConsistent
        (record { last = suc a.last; given = set_at c (some (pos (suc a.last))) a.given })
give-IsConsistent a c w h = record {
  in_range = λ i k e. elim (set_entry a.given c i (suc a.last) k h e) [
    | inl new ↦ ground (arith, new)
    | inr old ↦ ground (arith, w.in_range i k old)
  ];
  unique = λ i j k e f. elim (set_entry a.given c i (suc a.last) k h e) [
    | inl new ↦ elim (set_entry a.given c j (suc a.last) k h f) [
      | inl new' ↦ new.0 ∙ sym new'.0
      | inr old ↦ absurd (ground (arith, new, w.in_range j k old))
    ]
    | inr old ↦ elim (set_entry a.given c j (suc a.last) k h f) [
      | inl new ↦ absurd (ground (arith, new, w.in_range i k old))
      | inr old' ↦ w.unique i j k old old'
    ]
  ];
}

CounterStep-IsConsistent : (a b : Counter) → CounterStep a b → IsConsistent a → IsConsistent b
CounterStep-IsConsistent a b (idle e) w = subst IsConsistent (sym e) w
CounterStep-IsConsistent a b (join e) w = subst IsConsistent (sym e) (record {
  in_range = λ i k h. w.in_range i k (append_none a.given i k h);
  unique = λ i j k h g. w.unique i j k (append_none a.given i k h) (append_none a.given j k g);
})
CounterStep-IsConsistent a b (give c h room e) w =
    subst IsConsistent (sym e) (give-IsConsistent a c w h)
CounterStep-IsConsistent a b (lose room e) w =
    subst IsConsistent (sym e)
      (record { in_range = λ i k h. ground (arith, w.in_range i k h); unique = w.unique })

-- A reachable keyspace stands for a consistent counter.
reached : {s : Keyspace} → Reach no_runs s → (a : Counter) × IsConsistent a × Refines s a
reached at_start = (
  record { last = 0; given = [] },
  record { in_range = λ i k h. cc; unique = λ i j k h g. cc },
  record { register = refl; bounded = omega arith; ids = refl; guarded = tt },
)
reached (after {t} {u} r st) =
    let before = reached r in
    let later = Step-IsSimulated t u before.0 st before.2 in
    (later.0, CounterStep-IsConsistent before.0 later.0 later.1 before.1, later.2)

entry :
    (s : Keyspace) (a : Counter) (i : ℕ) (id : ℤ)
    → Refines s a
    → get_elem? s.callers i ≡ some (returned id)
    → get_elem? a.given i ≡ some (some id)
entry s a i id r h =
    subst (λ g. get_elem? g i ≡ some (some id)) r.ids
      (get_elem?-map issued s.callers i (returned id) h)

-- However the queries of concurrent callers interleave, and whatever answers are lost, two callers
-- that were given the same run id are the same caller.
pub Reach-unique_id :
    {s : Keyspace} (i j : ℕ) (id : ℤ)
    → Reach no_runs s
    → get_elem? s.callers i ≡ some (returned id)
    → get_elem? s.callers j ≡ some (returned id)
    → i ≡ j
Reach-unique_id {s} i j id r hi hj =
    let counter = reached r in
    counter.1.unique i j id (entry s counter.0 i id counter.2 hi)
      (entry s counter.0 j id counter.2 hj)

-- Each run id given is in the range of a positive int16, and is at most the counter of the keyspace.
pub Reach-id_bounds :
    {s : Keyspace} (i : ℕ) (id : ℤ)
    → Reach no_runs s
    → get_elem? s.callers i ≡ some (returned id)
    → (pos 1 ≤ℤ id) × (id ≤ℤ s.last_run) × (s.last_run ≤ℤ pos 32767)
Reach-id_bounds {s} i id r h =
    let counter = reached r in
    let range = counter.1.in_range i id (entry s counter.0 i id counter.2 h) in
    ground (arith, range, counter.2.register, counter.2.bounded)
