-- ===== src/Wfdb/Counter.antt =====
-- A counter that gives each id once, in one step, and how a keyspace with callers of
-- GetNextRunCounter, pkg/wfdb/run_counter.go, stands for it.
use capillaries.Prelude.{
  ◌≡◌, refl, ap, sym, ◌∙◌, false, All, All-set_at, List, [], ◌∷◌, ◌++◌, ◌≤◌, ◌<◌, ℕ, suc, arith,
  Option, none, some, map, get_elem?, set_at, if_ind, ltb, get_elem?-map, map-set_at, set_at_same,
}
use capillaries.Prelude.Int.{ℤ, pos, int_lt, wrap64, ◌+ℤ◌}
use capillaries.Prelude.Outcome.{Outcome, done, error}
use capillaries.Wfmodel.Row.{
  Row, Value, int_value, int8_value, int16_value, int32_value, int64_value, text_value, time_value,
  other_value, field,
}
use capillaries.Wfdb.RunCounter.{
  Caller, CounterError, selecting, updating, returned, failed, on_select, check_limit,
  typed_last_run, next_round, run_counter_exhausted, too_many_attempts, max_retries, new_run_id,
  max_int16,
}
use capillaries.Wfdb.Callers.{Keyspace}

-- The last id given, and the id that each caller has been given.
pub record Counter : Type 0 where
  pub last : ℕ
  pub given : List (Option ℤ)

pub data CounterStep (a b : Counter) : Type 0 where
  idle : b ≡ a → CounterStep a b
  join : b ≡ record { last = a.last; given = a.given ++ none ∷ [] } → CounterStep a b
  give :
      (i : ℕ)
      → get_elem? a.given i ≡ some none
      → a.last < 32767
      → b ≡ record { last = suc a.last; given = set_at i (some (pos (suc a.last))) a.given }
      → CounterStep a b
  lose : a.last < 32767 → b ≡ record { last = suc a.last; given = a.given } → CounterStep a b

abbrev pub issued : Caller → Option ℤ
issued (returned id) = some id
issued _ = none

-- A caller updates only with a value for which the next id is in bounds.
abbrev pub IsGuarded : Caller → Type 0
IsGuarded (updating retry last) = int_lt max_int16 (new_run_id last) ≡ false
IsGuarded _ = Unit

-- The keyspace implements the counter.
pub record Refines (s : Keyspace) (a : Counter) : Type 0 where
  pub register : s.last_run ≡ pos a.last
  pub bounded : a.last ≤ 32767
  pub ids : map issued s.callers ≡ a.given
  pub guarded : All IsGuarded s.callers

pub new_run_id_pos : (n : ℕ) → n ≤ 32767 → new_run_id (pos n) ≡ pos (suc n)
unfolding new_run_id wrap64 ◌+ℤ◌
new_run_id_pos n h = ground arith

-- A caller that has no id and is guarded.
abbrev pub IsWaiting : Caller → Type 0
IsWaiting c = (issued c ≡ none) × IsGuarded c

check_limit-IsWaiting : (retry : ℕ) (last : ℤ) → IsWaiting (check_limit retry last)
unfolding check_limit
check_limit-IsWaiting retry last =
    if_ind IsWaiting (int_lt max_int16 (new_run_id last)) (failed run_counter_exhausted)
      (updating retry last) (λ _. (refl, tt)) (λ f. (refl, f))

typed_last_run-IsWaiting : (retry : ℕ) (v : Value) → IsWaiting (typed_last_run retry v)
unfolding typed_last_run
typed_last_run-IsWaiting retry (int_value v) = check_limit-IsWaiting retry v
typed_last_run-IsWaiting retry (int8_value v) = check_limit-IsWaiting retry v
typed_last_run-IsWaiting retry (int16_value v) = check_limit-IsWaiting retry v
typed_last_run-IsWaiting retry (int32_value v) = check_limit-IsWaiting retry v
typed_last_run-IsWaiting retry (int64_value v) = check_limit-IsWaiting retry v
typed_last_run-IsWaiting retry (text_value v) = (refl, tt)
typed_last_run-IsWaiting retry (time_value v) = (refl, tt)
typed_last_run-IsWaiting retry other_value = (refl, tt)

pub on_select-IsWaiting :
    (retry : ℕ) (a : Outcome CounterError (List Row)) → IsWaiting (on_select retry a)
unfolding on_select
on_select-IsWaiting retry (error e) = (refl, tt)
on_select-IsWaiting retry (done []) = (refl, tt)
on_select-IsWaiting retry (done (row ∷ [])) = typed_last_run-IsWaiting retry (field "last_run" row)
on_select-IsWaiting retry (done (row ∷ other ∷ rows)) = (refl, tt)

pub next_round-IsWaiting : (retry : ℕ) → IsWaiting (next_round retry)
unfolding next_round
next_round-IsWaiting retry =
    if_ind IsWaiting (ltb retry max_retries) (selecting retry) (failed too_many_attempts)
      (λ _. (refl, tt)) (λ _. (refl, tt))

-- A caller that waits before and after a step has no part in the counter.
pub Refines-waiting :
    (s : Keyspace) (a : Counter) (i : ℕ) (c d : Caller)
    → Refines s a
    → get_elem? s.callers i ≡ some c
    → issued c ≡ none
    → IsWaiting d
    → Refines (record { last_run = s.last_run; callers = set_at i d s.callers }) a
Refines-waiting s a i c d r e n w =
    let unchanged : set_at i (issued d) (map issued s.callers) ≡ map issued s.callers =
      set_at_same i (issued d) (map issued s.callers)
        (get_elem?-map issued s.callers i c e ∙ ap some (n ∙ sym w.0)) in
    record {
      register = r.register;
      bounded = r.bounded;
      ids = map-set_at issued i d s.callers ∙ unchanged ∙ r.ids;
      guarded = All-set_at IsGuarded i d s.callers w.1 r.guarded;
    }

-- The id after the last one is in bounds where a guarded caller would write it.
pub guarded_lt : (retry : ℕ) (n : ℕ) → n ≤ 32767 → IsGuarded (updating retry (pos n)) → n < 32767
guarded_lt retry n b g = ground (arith, new_run_id_pos n b)
