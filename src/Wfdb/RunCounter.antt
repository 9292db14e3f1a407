-- ===== src/Wfdb/RunCounter.antt =====
-- pkg/wfdb/run_counter.go: GetNextRunCounter as a machine that waits for the answer of one query at a
-- time, with what it does on each answer.
use capillaries.Prelude.{Bool, false, true, List, [], ◌∷◌, ◌+◌, ℕ, if◌then◌else◌, ltb}
use capillaries.Prelude.Int.{ℤ, pos, int_lt, wrap16, wrap64, ◌+ℤ◌}
use capillaries.Prelude.Outcome.{Outcome, done, error}
use capillaries.Wfmodel.Row.{
  Row, Value, int_value, int8_value, int16_value, int32_value, int64_value, field,
}

pub data CounterError : Type 0 where
  cannot_get_run_counter wrong_number_of_rows not_an_integer : CounterError
  run_counter_exhausted cannot_increment_run_counter too_many_attempts : CounterError

-- A caller is before its select, or before its conditional update with the value that it read, in
-- the round with the given retry count; or it has returned.
pub data Caller : Type 0 where
  selecting : ℕ → Caller
  updating : ℕ → ℤ → Caller
  returned : ℤ → Caller
  failed : CounterError → Caller

abbrev pub max_retries : ℕ
max_retries = 100

abbrev pub max_int16 : ℤ
max_int16 = pos 32767

-- `newRunId := lastRunId + 1`
unfoldable pub new_run_id : ℤ → ℤ
new_run_id last = wrap64 (last +ℤ pos 1)

-- The test of the for statement.
unfoldable pub next_round : ℕ → Caller
next_round retry = if ltb retry max_retries then selecting retry else failed too_many_attempts

unfoldable pub check_limit : ℕ → ℤ → Caller
check_limit retry last =
    if int_lt max_int16 (new_run_id last) then failed run_counter_exhausted else updating retry last

unfoldable pub typed_last_run : ℕ → Value → Caller
unfolding check_limit
typed_last_run retry (int_value v) = check_limit retry v
typed_last_run retry (int8_value v) = check_limit retry v
typed_last_run retry (int16_value v) = check_limit retry v
typed_last_run retry (int32_value v) = check_limit retry v
typed_last_run retry (int64_value v) = check_limit retry v
typed_last_run retry _ = failed not_an_integer

-- On the answer of the select: the rows, or an error.
unfoldable pub on_select : ℕ → Outcome CounterError (List Row) → Caller
unfolding typed_last_run
on_select retry (error e) = failed cannot_get_run_counter
on_select retry (done (row ∷ [])) = typed_last_run retry (field "last_run" row)
on_select retry (done _) = failed wrong_number_of_rows

-- On the answer of the update: whether it was applied, or an error.
unfoldable pub on_update : ℕ → ℤ → Outcome CounterError Bool → Caller
unfolding next_round
on_update retry last (error e) = failed cannot_increment_run_counter
on_update retry last (done true) = returned (wrap16 (new_run_id last))
on_update retry last (done false) = next_round (retry + 1)

-- A call of GetNextRunCounter.
unfoldable pub get_next_run_counter : Caller
unfolding next_round
get_next_run_counter = next_round 0
