-- ===== src/Wfdb/Rounds.antt =====
-- The rounds of one call of GetNextRunCounter, pkg/wfdb/run_counter.go: however its queries are
-- answered, it makes at most a hundred of each.
use capillaries.Prelude.{
  ◌≡◌, refl, if_ind, ltb, Bool, false, true, List, [], ◌∷◌, ◌+◌, ◌-◌, ◌*◌, ◌≤◌, ◌<◌, ℕ, zero, suc,
  arith, inl, inr, ◌⊎◌,
}
use capillaries.Prelude.Int.{ℤ, int_lt}
use capillaries.Prelude.Outcome.{Outcome, done, error}
use capillaries.Wfmodel.Row.{
  Row, Value, int_value, int8_value, int16_value, int32_value, int64_value, text_value, time_value,
  other_value, field,
}
use capillaries.Wfdb.RunCounter.{
  Caller, CounterError, selecting, updating, returned, failed, on_select, on_update,
  get_next_run_counter, next_round, typed_last_run, check_limit, max_int16, max_retries, new_run_id,
  run_counter_exhausted, too_many_attempts,
}

-- The answers to the queries of one call, by the number of the query.
pub record Answers : Type 0 where
  pub rows : ℕ → Outcome CounterError (List Row)
  pub applied : ℕ → Outcome CounterError Bool

unfoldable pub answer : Answers → ℕ → Caller → Caller
answer a k (selecting retry) = on_select retry (a.rows k)
answer a k (updating retry last) = on_update retry last (a.applied k)
answer a k c = c

-- The call after a number of further answers.
unfoldable pub run_call : Answers → ℕ → ℕ → Caller → Caller
run_call a k zero c = c
run_call a k (suc n) c = run_call a (k + 1) n (answer a k c)

-- How many queries are left at most.
abbrev queries_left : Caller → ℕ
queries_left (selecting retry) = 2 * (100 - retry)
queries_left (updating retry last) = 2 * (100 - retry) - 1
queries_left _ = 0

-- In the middle of a call the retry count is below the limit.
abbrev IsCounting : Caller → Type 0
IsCounting (selecting retry) = retry < 100
IsCounting (updating retry last) = retry < 100
IsCounting _ = Unit

abbrev pub IsOver : Caller → Type 0
IsOver c = ((id : ℤ) × (c ≡ returned id)) ⊎ ((e : CounterError) × (c ≡ failed e))

-- An answer counts down.
abbrev CountsDown : ℕ → Caller → Type 0
CountsDown n c = IsCounting c × (queries_left c ≤ n)

check_limit-CountsDown :
    (retry : ℕ) (last : ℤ)
    → retry < 100
    → CountsDown (2 * (100 - retry) - 1) (check_limit retry last)
unfolding check_limit
check_limit-CountsDown retry last h =
    if_ind (CountsDown (2 * (100 - retry) - 1)) (int_lt max_int16 (new_run_id last))
      (failed run_counter_exhausted) (updating retry last) (λ _. (tt, omega arith))
      (λ _. (h, omega arith))

typed_last_run-CountsDown :
    (retry : ℕ) (v : Value)
    → retry < 100
    → CountsDown (2 * (100 - retry) - 1) (typed_last_run retry v)
unfolding typed_last_run
typed_last_run-CountsDown retry (int_value v) h = check_limit-CountsDown retry v h
typed_last_run-CountsDown retry (int8_value v) h = check_limit-CountsDown retry v h
typed_last_run-CountsDown retry (int16_value v) h = check_limit-CountsDown retry v h
typed_last_run-CountsDown retry (int32_value v) h = check_limit-CountsDown retry v h
typed_last_run-CountsDown retry (int64_value v) h = check_limit-CountsDown retry v h
typed_last_run-CountsDown retry (text_value v) h = (tt, omega arith)
typed_last_run-CountsDown retry (time_value v) h = (tt, omega arith)
typed_last_run-CountsDown retry other_value h = (tt, omega arith)

on_select-CountsDown :
    (retry : ℕ) (a : Outcome CounterError (List Row))
    → retry < 100
    → CountsDown (2 * (100 - retry) - 1) (on_select retry a)
unfolding on_select
on_select-CountsDown retry (error e) h = (tt, omega arith)
on_select-CountsDown retry (done []) h = (tt, omega arith)
on_select-CountsDown retry (done (row ∷ [])) h =
    typed_last_run-CountsDown retry (field "last_run" row) h
on_select-CountsDown retry (done (row ∷ other ∷ rows)) h = (tt, omega arith)

next_round-CountsDown : (retry : ℕ) → CountsDown (2 * (100 - retry)) (next_round retry)
unfolding next_round
next_round-CountsDown retry =
    if_ind (CountsDown (2 * (100 - retry))) (ltb retry max_retries) (selecting retry)
      (failed too_many_attempts) (λ b. (ground arith, omega arith)) (λ _. (tt, omega arith))

on_update-CountsDown :
    (retry : ℕ) (last : ℤ) (a : Outcome CounterError Bool)
    → retry < 100
    → CountsDown (2 * (100 - retry) - 2) (on_update retry last a)
unfolding on_update
on_update-CountsDown retry last (error e) h = (tt, omega arith)
on_update-CountsDown retry last (done true) h = (tt, omega arith)
on_update-CountsDown retry last (done false) h =
    let rest = next_round-CountsDown (retry + 1) in (rest.0, omega (arith, rest.1))

answer-CountsDown :
    (a : Answers) (k n : ℕ) (c : Caller) → CountsDown (suc n) c → CountsDown n (answer a k c)
unfolding answer
answer-CountsDown a k n (selecting retry) h =
    let rest = on_select-CountsDown retry (a.rows k) h.0 in (rest.0, omega (arith, rest.1, h.1))
answer-CountsDown a k n (updating retry last) h =
    let rest = on_update-CountsDown retry last (a.applied k) h.0 in
    (rest.0, omega (arith, rest.1, h.1))
answer-CountsDown a k n (returned id) h = (tt, omega arith)
answer-CountsDown a k n (failed e) h = (tt, omega arith)

over : (c : Caller) → CountsDown 0 c → IsOver c
over (selecting retry) h = absurd (omega (arith, h.0, h.1))
over (updating retry last) h = absurd (omega (arith, h.0, h.1))
over (returned id) h = inl (id, refl)
over (failed e) h = inr (e, refl)

run_call-CountsDown :
    (a : Answers) (k n : ℕ) (c : Caller) → CountsDown n c → IsOver (run_call a k n c)
unfolding run_call
run_call-CountsDown a k zero c h = over c h
run_call-CountsDown a k (suc n) c h =
    run_call-CountsDown a (k + 1) n (answer a k c) (answer-CountsDown a k n c h)

-- A call of GetNextRunCounter is over, with a run id or an error, after two hundred answers to its
-- queries, whatever the database answers.
pub run_call-IsOver : (a : Answers) → IsOver (run_call a 0 200 get_next_run_counter)
unfolding get_next_run_counter
run_call-IsOver a = run_call-CountsDown a 0 200 (next_round 0) (next_round-CountsDown 0)
