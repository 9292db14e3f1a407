-- ===== src/Examples/Aggregates.antt =====
-- Runs of the aggregate functions of pkg/eval, with integers in the place of floating point numbers
-- and decimals.
use capillaries.Prelude.{◌≡◌, refl, true, [], ◌∷◌, map, All, arith}
use capillaries.Prelude.Int.{ℤ, pos, negsuc, int_lt, ◌+ℤ◌, ◌≤ℤ◌}
use capillaries.Prelude.Text.{bytes}
use capillaries.Prelude.Outcome.{done, error}
use capillaries.Eval.Numbers.{
  Numbers, int16_value, int64_value, string_value, started_with_another_type,
}
use capillaries.Eval.Agg.{div_count, new_plain_eval_ctx_internal, string_to_agg_func, agg_max_if}
use capillaries.Eval.Calls.{call_agg_avg, call_agg_min, call_agg_sum}
use capillaries.Eval.Average.{evaluate, evaluate-call_agg_avg}
use capillaries.Eval.Bounds.{sum_from}
use capillaries.Eval.Types.{type_of}
use capillaries.Eval.OneType.{AllDone-call_of, collect_sum}

abbrev whole : Numbers
whole = record {
  Float32 = ℤ;
  Float64 = ℤ;
  Decimal = ℤ;
  widen = λ f. f;
  int_of_float32 = λ f. f;
  int_of_float = λ f. f;
  float_of_int = λ f. f;
  float_of_decimal = λ f. f;
  decimal_of_int = λ f. f;
  decimal_of_float32 = λ f. f;
  decimal_of_float = λ f. f;
  is_integer = λ f. true;
  big_int = λ f. f;
  float_add = λ a b. a +ℤ b;
  float_div = λ a b. div_count a b;
  float_lt = int_lt;
  decimal_add = λ a b. a +ℤ b;
  decimal_div = λ a b. div_count a b;
  decimal_round = λ n a. a;
  decimal_lt = int_lt;
  zero_float = pos 0;
  max_float = pos 1000000;
  min_float = negsuc 1000000;
  max_decimal = pos 1000000;
  min_decimal = negsuc 1000000;
}

a_function : string_to_agg_func (bytes "max_if") ≡ agg_max_if
unfolding string_to_agg_func capillaries.Prelude.Text.text_eq
a_function = refl

-- An empty text is lost as the minimum when another text follows.
minimum_of_texts :
    (evaluate
      (call_agg_min {num = whole} 1)
      (string_value [])
      (string_value (bytes "b") ∷ [])
      (new_plain_eval_ctx_internal {num = whole} true)).1
    ≡ done (string_value (bytes "b"))
unfolding evaluate call_agg_min new_plain_eval_ctx_internal
    capillaries.Eval.Collect.call_agg_min_internal
minimum_of_texts = refl

mixed_types :
    (evaluate
      (call_agg_min {num = whole} 1)
      (int64_value (pos 1))
      (string_value (bytes "b") ∷ [])
      (new_plain_eval_ctx_internal {num = whole} true)).1
    ≡ error started_with_another_type
unfolding evaluate call_agg_min new_plain_eval_ctx_internal
    capillaries.Eval.Collect.call_agg_min_internal
    capillaries.Eval.Cast.cast_number_to_standard_type
mixed_types = refl

evaluate-call_agg_avg_example :
    (r : ℤ) × ((evaluate
        (call_agg_avg {num = whole} 1)
        (int64_value (negsuc 2))
        (map int64_value (pos 1 ∷ pos 0 ∷ []))
        (new_plain_eval_ctx_internal {num = whole} true)).1
      ≡ done (int64_value r))
    × (r ≡ div_count (sum_from (pos 0) (negsuc 2 ∷ pos 1 ∷ pos 0 ∷ [])) (pos 3))
    × (negsuc 2 ≤ℤ r)
    × (r ≤ℤ pos 1)
evaluate-call_agg_avg_example =
    evaluate-call_agg_avg whole 1 (negsuc 2) (pos 1) (negsuc 2) (pos 1 ∷ pos 0 ∷ []) (omega arith)
      (omega arith) (omega arith) (omega arith, (omega arith, (omega arith, tt)))
      (omega arith, (omega arith, (omega arith, tt)))

AllDone-call_of_example :
    All
      (λ w. type_of {num = whole} w ≡ type_of {num = whole} (int64_value (pos 1)))
      (int16_value (pos 2) ∷ [])
unfolding call_agg_sum new_plain_eval_ctx_internal capillaries.Eval.Collect.call_agg_sum_internal
    capillaries.Eval.Cast.cast_number_to_standard_type capillaries.Prelude.Int.wrap64 ◌+ℤ◌
AllDone-call_of_example =
    AllDone-call_of whole collect_sum 1 (int64_value (pos 1)) (int16_value (pos 2) ∷ [])
      (new_plain_eval_ctx_internal {num = whole} true)
      ((int64_value (pos 1), refl), ((int64_value (pos 3), refl), tt))
