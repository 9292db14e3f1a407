-- ===== src/Eval/OneType.antt =====
-- The values that the calls of one aggregate accept have one type, pkg/eval/agg.go.
use capillaries.Prelude.{◌≡◌, ◌≢◌, refl, sym, ◌∙◌, true, List, [], ◌∷◌, ℕ, inl, inr, All}
use capillaries.Prelude.Outcome.{done}
use capillaries.Eval.Numbers.{Numbers, Value, string_value}
use capillaries.Eval.Agg.{
  AggDataType, agg_sum, agg_avg, agg_min, agg_max, EvalCtx, Evaluated, agg_type_string,
  agg_type_unknown, sum_int, sum_float, sum_dec,
}
use capillaries.Eval.Collect.{
  avg_int, avg_float, avg_dec, min_int, min_float, min_dec, min_string, max_int, max_float, max_dec,
  max_string, call_agg_avg_internal, call_agg_max_internal, call_agg_min_internal,
  call_agg_sum_internal,
}
use capillaries.Eval.Calls.{call_agg_avg, call_agg_max, call_agg_min, call_agg_sum}
use capillaries.Eval.Types.{
  Accepts, IsTyped, call_agg-IsTyped, on_number-Accepts, type_of, with_type-Accepts,
}

module _ {num : Numbers} where
  call_agg_sum-IsTyped : (call_exp : ℕ) → IsTyped (call_agg_sum {num = num} call_exp)
  unfolding call_agg_sum call_agg_sum_internal
  call_agg_sum-IsTyped call_exp = call_agg-IsTyped agg_sum call_agg_sum_internal call_exp (λ v ctx.
      on_number-Accepts sum_int sum_float sum_dec (λ _ _. refl) (λ _ _. refl) (λ _ _. refl) v ctx)

  call_agg_avg-IsTyped : (call_exp : ℕ) → IsTyped (call_agg_avg {num = num} call_exp)
  unfolding call_agg_avg call_agg_avg_internal
  call_agg_avg-IsTyped call_exp = call_agg-IsTyped agg_avg call_agg_avg_internal call_exp (λ v ctx.
      on_number-Accepts avg_int avg_float avg_dec (λ _ _. refl) (λ _ _. refl) (λ _ _. refl) v ctx)

  min-Accepts :
      (v : Value num) (ctx : EvalCtx num)
      → Accepts (type_of v) ctx (call_agg_min_internal v true ctx)
  unfolding call_agg_min_internal
  min-Accepts (string_value s) ctx =
      with_type-Accepts agg_type_string ctx (min_string s true) (λ e. cc) (λ _. refl)
  min-Accepts v ctx =
      on_number-Accepts min_int min_float min_dec (λ _ _. refl) (λ _ _. refl) (λ _ _. refl) v ctx

  max-Accepts :
      (v : Value num) (ctx : EvalCtx num)
      → Accepts (type_of v) ctx (call_agg_max_internal v true ctx)
  unfolding call_agg_max_internal
  max-Accepts (string_value s) ctx =
      with_type-Accepts agg_type_string ctx (max_string s true) (λ e. cc) (λ _. refl)
  max-Accepts v ctx =
      on_number-Accepts max_int max_float max_dec (λ _ _. refl) (λ _ _. refl) (λ _ _. refl) v ctx

  -- Every call in a row gives a value.
  abbrev pub AllDone :
      (List (Value num) → EvalCtx num → Evaluated num) → List (Value num) → EvalCtx num → Type 0
  AllDone f [] ctx = Unit
  AllDone f (v ∷ vs) ctx =
      ((r : Value num) × ((f (v ∷ []) ctx).1 ≡ done r)) × AllDone f vs (f (v ∷ []) ctx).0

  later_values :
      (f : List (Value num) → EvalCtx num → Evaluated num) (t : AggDataType) (vs : List (Value num))
      (ctx : EvalCtx num)
      → IsTyped f
      → ctx.agg_type ≡ t
      → t ≢ agg_type_unknown
      → AllDone f vs ctx
      → All (λ w. type_of w ≡ t) vs
  later_values f t [] ctx a e n d = tt
  later_values f t (v ∷ vs) ctx a e n d =
      let accepted = a v ctx d.0.0 d.0.1 in
      let same : type_of v ≡ t = elim accepted.2 [
        | inl u ↦ absurd (n (sym e ∙ u))
        | inr s ↦ sym s ∙ e
      ] in
      (same, later_values f t vs (f (v ∷ []) ctx).0 a (accepted.0 ∙ same) n d.1)

  one_type :
      (f : List (Value num) → EvalCtx num → Evaluated num) (v : Value num) (vs : List (Value num))
      (ctx : EvalCtx num)
      → IsTyped f
      → AllDone f (v ∷ vs) ctx
      → All (λ w. type_of w ≡ type_of v) vs
  one_type f v vs ctx a d =
      let accepted = a v ctx d.0.0 d.0.1 in
      later_values f (type_of v) vs (f (v ∷ []) ctx).0 a accepted.0 accepted.1 d.1

-- The functions that collect the values of one argument.
pub data Collecting : Type 0 where
  collect_sum collect_avg collect_min collect_max : Collecting

abbrev pub call_of :
    {num : Numbers} → Collecting → ℕ → List (Value num) → EvalCtx num → Evaluated num
call_of collect_sum call_exp = call_agg_sum call_exp
call_of collect_avg call_exp = call_agg_avg call_exp
call_of collect_min call_exp = call_agg_min call_exp
call_of collect_max call_exp = call_agg_max call_exp

call_of-IsTyped :
    (num : Numbers) (function : Collecting) (call_exp : ℕ)
    → IsTyped (call_of {num = num} function call_exp)
unfolding call_agg_min call_agg_max
call_of-IsTyped num collect_sum call_exp = call_agg_sum-IsTyped call_exp
call_of-IsTyped num collect_avg call_exp = call_agg_avg-IsTyped call_exp
call_of-IsTyped num collect_min call_exp =
    call_agg-IsTyped agg_min call_agg_min_internal call_exp min-Accepts
call_of-IsTyped num collect_max call_exp =
    call_agg-IsTyped agg_max call_agg_max_internal call_exp max-Accepts

-- If the calls of a sum, an average, a minimum or a maximum on a list of values all give a value, then
-- the values are all integers, all floating point numbers, all decimals or, for a minimum and a
-- maximum, all texts: each has the type of the first one.
pub AllDone-call_of :
    (num : Numbers) (function : Collecting) (call_exp : ℕ) (v : Value num) (vs : List (Value num))
    (ctx : EvalCtx num)
    → AllDone (call_of function call_exp) (v ∷ vs) ctx
    → All (λ w. type_of w ≡ type_of v) vs
AllDone-call_of num function call_exp v vs ctx d =
    one_type (call_of function call_exp) v vs ctx (call_of-IsTyped num function call_exp) d
