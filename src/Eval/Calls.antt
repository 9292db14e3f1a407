-- ===== src/Eval/Calls.antt =====
-- pkg/eval/agg.go: the calls of aggregate functions, with their checks.
use capillaries.Prelude.{
  Bool, true, not, List, ℕ, none, some, ◌==◌, length, get_elem?, ◌-◌, if◌then◌else◌,
}
use capillaries.Prelude.Outcome.{Outcome, done, error}
use capillaries.Eval.Numbers.{
  EvalError, Numbers, Value, agg_not_enabled, bool_value, extra_agg_call, index_out_of_range,
  unexpected_if_type, wrong_arg_count,
}
use capillaries.Eval.Agg.{
  AggFunc, EvalCtx, Evaluated, agg_avg, agg_count, agg_max, agg_min, agg_string_agg, agg_sum,
  call_agg_string_agg_internal,
}
use capillaries.Eval.Collect.{
  call_agg_avg_internal, call_agg_count_internal, call_agg_max_internal, call_agg_min_internal,
  call_agg_sum_internal,
}

module _ {num : Numbers} where
  -- checkAgg: the context knows its only aggregate call from then on.
  unfoldable pub check_agg : ℕ → AggFunc → EvalCtx num → Outcome EvalError (EvalCtx num)
  check_agg call_exp agg_func ctx =
      if not ctx.agg_enabled then error agg_not_enabled else elim ctx.agg_call_exp [
        | none ↦ done (record ctx { agg_call_exp = some call_exp; agg_func = agg_func })
        | some used ↦ if used == call_exp then done ctx else error extra_agg_call
      ]

  -- CheckArgs
  unfoldable pub check_args : ℕ → List (Value num) → Outcome EvalError (Unit {0})
  check_args required args = if length args == required then done tt else error wrong_arg_count

  -- `args[i]`
  unfoldable pub arg : ℕ → List (Value num) → Outcome EvalError (Value num)
  arg i args = elim (get_elem? args i) [ none ↦ error index_out_of_range | some v ↦ done v ]

  unfoldable pub check_if : Value num → Outcome EvalError Bool
  check_if (bool_value b) = done b
  check_if _ = error unexpected_if_type

  -- A check whose error is the error of the call.
  unfoldable pub checked :
      {A : Type 0} → Outcome EvalError A → EvalCtx num → (A → Evaluated num) → Evaluated num
  checked (done a) ctx next = next a
  checked (error e) ctx next = (ctx, error e)

  -- The checks of a call that always applies its argument.
  unfoldable pub call_agg :
      AggFunc
      → ℕ
      → (Value num → Bool → EvalCtx num → Evaluated num)
      → ℕ
      → List (Value num)
      → EvalCtx num
      → Evaluated num
  unfolding checked check_agg check_args arg
  call_agg agg_func arity internal call_exp args ctx =
      checked (check_agg call_exp agg_func ctx) ctx (λ c.
        checked (check_args arity args) c (λ _. checked (arg 0 args) c (λ v. internal v true c)))

  -- The checks of a call whose last argument says whether it applies the others.
  unfoldable pub call_agg_if :
      AggFunc
      → ℕ
      → (Value num → Bool → EvalCtx num → Evaluated num)
      → ℕ
      → List (Value num)
      → EvalCtx num
      → Evaluated num
  unfolding checked check_agg check_args arg check_if
  call_agg_if agg_func arity internal call_exp args ctx =
      checked (check_agg call_exp agg_func ctx) ctx (λ c. checked (check_args arity args) c (λ _.
        checked (arg (arity - 1) args) c (λ cond.
          checked (check_if cond) c
            (λ is_apply. checked (arg 0 args) c (λ v. internal v is_apply c)))))

  unfoldable pub call_agg_string_agg : ℕ → List (Value num) → EvalCtx num → Evaluated num
  unfolding call_agg call_agg_string_agg_internal
  call_agg_string_agg = call_agg agg_string_agg 2 call_agg_string_agg_internal

  unfoldable pub call_agg_string_agg_if : ℕ → List (Value num) → EvalCtx num → Evaluated num
  unfolding call_agg_if call_agg_string_agg_internal
  call_agg_string_agg_if = call_agg_if agg_string_agg 3 call_agg_string_agg_internal

  unfoldable pub call_agg_sum : ℕ → List (Value num) → EvalCtx num → Evaluated num
  unfolding call_agg
  call_agg_sum = call_agg agg_sum 1 call_agg_sum_internal

  unfoldable pub call_agg_sum_if : ℕ → List (Value num) → EvalCtx num → Evaluated num
  unfolding call_agg_if
  call_agg_sum_if = call_agg_if agg_sum 2 call_agg_sum_internal

  unfoldable pub call_agg_avg : ℕ → List (Value num) → EvalCtx num → Evaluated num
  unfolding call_agg
  call_agg_avg = call_agg agg_avg 1 call_agg_avg_internal

  unfoldable pub call_agg_avg_if : ℕ → List (Value num) → EvalCtx num → Evaluated num
  unfolding call_agg_if
  call_agg_avg_if = call_agg_if agg_avg 2 call_agg_avg_internal

  unfoldable pub call_agg_min : ℕ → List (Value num) → EvalCtx num → Evaluated num
  unfolding call_agg
  call_agg_min = call_agg agg_min 1 call_agg_min_internal

  unfoldable pub call_agg_min_if : ℕ → List (Value num) → EvalCtx num → Evaluated num
  unfolding call_agg_if
  call_agg_min_if = call_agg_if agg_min 2 call_agg_min_internal

  unfoldable pub call_agg_max : ℕ → List (Value num) → EvalCtx num → Evaluated num
  unfolding call_agg
  call_agg_max = call_agg agg_max 1 call_agg_max_internal

  unfoldable pub call_agg_max_if : ℕ → List (Value num) → EvalCtx num → Evaluated num
  unfolding call_agg_if
  call_agg_max_if = call_agg_if agg_max 2 call_agg_max_internal

  unfoldable pub call_agg_count : ℕ → List (Value num) → EvalCtx num → Evaluated num
  unfolding checked check_agg check_args call_agg_count_internal
  call_agg_count call_exp args ctx =
      checked (check_agg call_exp agg_count ctx) ctx
        (λ c. checked (check_args 0 args) c (λ _. call_agg_count_internal true c))

  unfoldable pub call_agg_count_if : ℕ → List (Value num) → EvalCtx num → Evaluated num
  unfolding checked check_agg check_args arg check_if call_agg_count_internal
  call_agg_count_if call_exp args ctx = checked (check_agg call_exp agg_count ctx) ctx (λ c.
      checked (check_args 1 args) c (λ _.
        checked (arg 0 args) c
          (λ cond. checked (check_if cond) c (λ is_apply. call_agg_count_internal is_apply c))))
