-- ===== src/Eval/Average.antt =====
-- The average of integers, pkg/eval/agg.go: the sum is exact and the quotient is rounded down, so the
-- average lies between the values and does not overflow.
use mathlib.Core.Path.{subst}
use capillaries.Prelude.{
  ◌≡◌, refl, sym, ap, ◌∙◌, true, List, [], ◌∷◌, ◌+◌, ◌<◌, ◌==◌, ◌^◌, ℕ, some, arith, All, length,
  map,
}
use capillaries.Prelude.Int.{
  ℤ, pos, negsuc, ◌≤ℤ◌, ◌+ℤ◌, wrap64, int_lt, wrap64_of_fits, max_int64, min_int64,
}
use capillaries.Prelude.Outcome.{done}
use capillaries.Eval.Numbers.{Numbers, Value, int64_value}
use capillaries.Eval.Agg.{
  EvalCtx, Evaluated, agg_avg, agg_type_int, div_count, new_plain_eval_ctx_internal,
}
use capillaries.Eval.Bounds.{
  IsAbove, IsBelow, IsAbove-div_count, IsBelow-div_count, sum_from, count_next, sum_from-IsAbove,
  sum_from-IsBelow, ≤ℤ_trans, zero_plus,
}
use capillaries.Eval.Cast.{cast_number_to_standard_type}
use capillaries.Eval.Collect.{call_agg_avg_internal}
use capillaries.Eval.Calls.{call_agg_avg}

-- The context of a call after some values: their number and their sum are in the collector.
abbrev averaging : (num : Numbers) → ℕ → ℤ → ℕ → EvalCtx num
averaging num call_exp sum count =
    let ctx = new_plain_eval_ctx_internal {num = num} true in
    record {
      agg_enabled = true;
      agg_call_exp = some call_exp;
      agg_func = agg_avg;
      agg_type = agg_type_int;
      string_agg_collector = ctx.string_agg_collector;
      sum_collector = ctx.sum_collector;
      avg_collector = record {
        int = sum;
        float = num.zero_float;
        dec = num.decimal_of_int (pos 0);
        str = [];
        count = pos count;
      };
      min_collector = ctx.min_collector;
      max_collector = ctx.max_collector;
      count = pos 0;
      round_dec = negsuc 0;
    }

first_value :
    (num : Numbers) (call_exp : ℕ) (v : ℤ)
    → call_agg_avg call_exp (int64_value v ∷ []) (new_plain_eval_ctx_internal {num = num} true) ≡ (
      averaging num call_exp (pos 0 +ℤ v) 1,
      done (int64_value (wrap64 (div_count (pos 0 +ℤ v) (pos 1)))),
    )
unfolding call_agg_avg call_agg_avg_internal cast_number_to_standard_type
    new_plain_eval_ctx_internal wrap64 ◌+ℤ◌ div_count
first_value num call_exp v = refl

same_call : (n : ℕ) → n == n ≡ true
same_call n = ground arith

next_count : (k : ℕ) → k + 1 < 2 ^ 63 → wrap64 (pos k +ℤ pos 1) ≡ pos (k + 1)
unfolding wrap64 ◌+ℤ◌
next_count k h = ground arith

positive : (k : ℕ) → int_lt (pos 0) (pos (k + 1)) ≡ true
positive k = ground arith

next_value :
    (num : Numbers) (call_exp : ℕ) (sum v : ℤ) (k : ℕ)
    → k + 1 < 2 ^ 63
    → call_agg_avg call_exp (int64_value v ∷ []) (averaging num call_exp sum k) ≡ (
      averaging num call_exp (sum +ℤ v) (k + 1),
      done (int64_value (wrap64 (div_count (sum +ℤ v) (pos (k + 1))))),
    )
unfolding call_agg_avg call_agg_avg_internal cast_number_to_standard_type
    new_plain_eval_ctx_internal
next_value num call_exp sum v k h = rw (same_call call_exp, next_count k h, positive k) refl

-- The calls of a function on the values of a list, after a first one: the context after the last call
-- and its value.
unfoldable pub evaluate :
    {num : Numbers}
    → (List (Value num) → EvalCtx num → Evaluated num)
    → Value num
    → List (Value num)
    → EvalCtx num
    → Evaluated num
evaluate f v [] ctx = f (v ∷ []) ctx
evaluate f v (w ∷ vs) ctx = evaluate f w vs (f (v ∷ []) ctx).0

-- The context and the average after a number of values with a sum.
abbrev averaged : (num : Numbers) → ℕ → ℤ → ℕ → Evaluated num
averaged num call_exp sum k =
    (averaging num call_exp sum k, done (int64_value (wrap64 (div_count sum (pos k)))))

evaluate-averaging :
    (num : Numbers) (call_exp : ℕ) (sum v : ℤ) (vs : List ℤ) (k : ℕ)
    → k + length (v ∷ vs) < 2 ^ 63
    → evaluate
        (call_agg_avg {num = num} call_exp)
        (int64_value v)
        (map int64_value vs)
        (averaging num call_exp sum k)
      ≡ averaged num call_exp (sum_from sum (v ∷ vs)) (k + length (v ∷ vs))
unfolding evaluate
evaluate-averaging num call_exp sum v [] k h = next_value num call_exp sum v k h
evaluate-averaging num call_exp sum v (w ∷ vs) k h =
    ap (λ r. evaluate (call_agg_avg {num = num} call_exp) (int64_value w) (map int64_value vs) r.0)
      (next_value num call_exp sum v k (omega arith))
    ∙ evaluate-averaging num call_exp (sum +ℤ v) w vs (k + 1) (omega arith)
    ∙ ap (averaged num call_exp (sum_from sum (v ∷ w ∷ vs))) (sym (count_next k (length (w ∷ vs))))

-- The first value of all: the collector has the sum 0 before.
evaluate-average :
    (num : Numbers) (call_exp : ℕ) (v : ℤ) (vs : List ℤ)
    → length (v ∷ vs) < 2 ^ 63
    → evaluate
        (call_agg_avg {num = num} call_exp)
        (int64_value v)
        (map int64_value vs)
        (new_plain_eval_ctx_internal {num = num} true)
      ≡ averaged num call_exp (sum_from (pos 0) (v ∷ vs)) (length (v ∷ vs))
unfolding evaluate
evaluate-average num call_exp v [] h = first_value num call_exp v
evaluate-average num call_exp v (w ∷ vs) h =
    ap (λ r. evaluate (call_agg_avg {num = num} call_exp) (int64_value w) (map int64_value vs) r.0)
      (first_value num call_exp v)
    ∙ evaluate-averaging num call_exp (pos 0 +ℤ v) w vs 1 (omega arith)
    ∙ ap (averaged num call_exp (sum_from (pos 0) (v ∷ w ∷ vs))) (omega arith)

-- The average of at least one and fewer than 2 ^ 63 integers is their exact sum divided by their
-- number, rounded down; it lies between any bounds of the values that an int64 holds.
pub evaluate-call_agg_avg :
    (num : Numbers) (call_exp : ℕ) (lo hi v : ℤ) (vs : List ℤ)
    → length (v ∷ vs) < 2 ^ 63
    → min_int64 ≤ℤ lo
    → hi ≤ℤ max_int64
    → All (λ x. lo ≤ℤ x) (v ∷ vs)
    → All (λ x. x ≤ℤ hi) (v ∷ vs)
    → (r : ℤ) × ((evaluate
          (call_agg_avg {num = num} call_exp)
          (int64_value v)
          (map int64_value vs)
          (new_plain_eval_ctx_internal {num = num} true)).1
        ≡ done (int64_value r))
      × (r ≡ div_count (sum_from (pos 0) (v ∷ vs)) (pos (length (v ∷ vs))))
      × (lo ≤ℤ r)
      × (r ≤ℤ hi)
evaluate-call_agg_avg num call_exp lo hi v vs n l h al ah =
    let sum = sum_from (pos 0) (v ∷ vs) in
    let r = div_count sum (pos (length (v ∷ vs))) in
    let above : lo ≤ℤ r = IsAbove-div_count lo (length (v ∷ vs)) sum (omega arith) (
      subst (λ n. IsAbove lo n sum) (zero_plus (length (v ∷ vs)))
        (sum_from-IsAbove lo 0 (pos 0) (v ∷ vs) (omega arith) al)) in
    let below : r ≤ℤ hi = IsBelow-div_count hi (length (v ∷ vs)) sum (omega arith) (
      subst (λ n. IsBelow hi n sum) (zero_plus (length (v ∷ vs)))
        (sum_from-IsBelow hi 0 (pos 0) (v ∷ vs) (omega arith) ah)) in
    (
      r,
      ap (λ e. e.1) (evaluate-average num call_exp v vs n)
          ∙ ap (λ a. done (int64_value a))
              (wrap64_of_fits r (≤ℤ_trans min_int64 lo r l above)
                (≤ℤ_trans r hi max_int64 below h)),
      refl,
      above,
      below,
    )
