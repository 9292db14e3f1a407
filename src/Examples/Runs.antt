-- ===== src/Examples/Runs.antt =====
-- Runs of two concurrent callers of GetNextRunCounter, pkg/wfdb/run_counter.go.
use capillaries.Prelude.{◌≡◌, ℕ, refl, [], ◌∷◌, false, none, arith}
use capillaries.Prelude.Int.{pos, ◌≤ℤ◌}
use capillaries.Prelude.Outcome.{done}
use capillaries.Wfmodel.Row.{int_value}
use capillaries.Wfdb.RunCounter.{
  Caller, get_next_run_counter, returned, selecting, updating, on_select, on_update,
  cannot_get_run_counter, max_int16, failed,
}
use capillaries.Wfdb.Callers.{
  Keyspace, Step, Reach, at_start, after, call, select, update, no_runs, update_if,
}
use capillaries.Wfdb.Counter.{Counter, CounterStep, Refines}
use capillaries.Wfdb.Refinement.{Step-IsSimulated}
use capillaries.Wfdb.Rounds.{Answers, IsOver, run_call, run_call-IsOver}
use capillaries.Wfdb.Unique.{Reach-unique_id, Reach-id_bounds}

-- Both have read 0.
abbrev both_read : Keyspace
both_read = record { last_run = pos 0; callers = updating 0 (pos 0) ∷ updating 0 (pos 0) ∷ [] }

both_read-Reach : Reach no_runs both_read
unfolding get_next_run_counter on_select capillaries.Wfmodel.Row.field
    capillaries.Wfdb.RunCounter.new_run_id capillaries.Prelude.Int.wrap64
    capillaries.Prelude.Int.◌+ℤ◌
both_read-Reach =
    after (after (after (after at_start (call refl)) (call refl)) (select 0 0 refl refl))
      (select 1 0 refl refl)

-- The first one has won and the second one has lost the race.
abbrev one_won : Keyspace
one_won = record { last_run = pos 1; callers = returned (pos 1) ∷ updating 0 (pos 0) ∷ [] }

first_wins : Step both_read one_won
unfolding on_update update_if capillaries.Wfdb.RunCounter.new_run_id capillaries.Prelude.Int.wrap16
    capillaries.Prelude.Int.wrap64 capillaries.Prelude.Int.◌+ℤ◌
first_wins = update 0 0 (pos 0) refl refl

-- The second one has retried.
abbrev both_won : Keyspace
both_won = record { last_run = pos 2; callers = returned (pos 1) ∷ returned (pos 2) ∷ [] }

both_won-Reach : Reach no_runs both_won
unfolding on_update on_select update_if capillaries.Wfmodel.Row.field
    capillaries.Wfdb.RunCounter.new_run_id capillaries.Prelude.Int.wrap64
    capillaries.Prelude.Int.◌+ℤ◌ capillaries.Prelude.Int.wrap16
both_won-Reach =
    after
      (after (after (after both_read-Reach first_wins) (update 1 0 (pos 0) refl refl))
        (select 1 1 refl refl))
      (update 1 1 (pos 1) refl refl)

Reach-unique_id_example : ◌≡◌ {A = ℕ} 1 1
Reach-unique_id_example = Reach-unique_id {s = both_won} 1 1 (pos 2) both_won-Reach refl refl

Reach-id_bounds_example :
    (pos 1 ≤ℤ pos 2) × (pos 2 ≤ℤ both_won.last_run) × (both_won.last_run ≤ℤ pos 32767)
Reach-id_bounds_example = Reach-id_bounds {s = both_won} 1 (pos 2) both_won-Reach refl

-- A counter that has given nothing to two callers.
abbrev two_callers : Counter
two_callers = record { last = 0; given = none ∷ none ∷ [] }

Step-IsSimulated_example : (b : Counter) × CounterStep two_callers b × Refines one_won b
unfolding capillaries.Wfdb.RunCounter.new_run_id capillaries.Prelude.Int.wrap64
    capillaries.Prelude.Int.◌+ℤ◌
Step-IsSimulated_example =
    Step-IsSimulated both_read one_won two_callers first_wins
      (record { register = refl; bounded = omega arith; ids = refl; guarded = (refl, (refl, tt)) })

-- A database that always answers with the same value and never applies an update.
abbrev stubborn : Answers
stubborn = record {
  rows = λ k. done ((("last_run", int_value (pos 7)) ∷ []) ∷ []);
  applied = λ k. done false;
}

run_call-IsOver_example : IsOver (run_call stubborn 0 200 get_next_run_counter)
run_call-IsOver_example = run_call-IsOver stubborn
