-- ===== src/Eval/Cast.antt =====
-- pkg/eval/cast.go: casts between the types of numbers.
use capillaries.Prelude.{Bool, true, false, ◌||◌, if◌then◌else◌}
use capillaries.Prelude.Int.{ℤ, wrap64}
use capillaries.Prelude.Outcome.{Outcome, done, error, and_then}
use capillaries.Eval.Numbers.{
  EvalError, Numbers, Value, cannot_cast, decimal_value, exact_conversion_impossible, float32_value,
  float64_value, int16_value, int32_value, int64_value, int8_value, int_value, invalid_left_arg,
  invalid_right_arg,
}

module _ (num : Numbers) where
  -- castNumberToStandardType
  unfoldable pub cast_number_to_standard_type : Value num → Outcome EvalError (Value num)
  cast_number_to_standard_type (int_value n) = done (int64_value n)
  cast_number_to_standard_type (int8_value n) = done (int64_value n)
  cast_number_to_standard_type (int16_value n) = done (int64_value n)
  cast_number_to_standard_type (int32_value n) = done (int64_value n)
  cast_number_to_standard_type (int64_value n) = done (int64_value n)
  cast_number_to_standard_type (float32_value f) = done (float64_value (num.widen f))
  cast_number_to_standard_type (float64_value f) = done (float64_value f)
  cast_number_to_standard_type (decimal_value d) = done (decimal_value d)
  cast_number_to_standard_type _ = error cannot_cast

  unfoldable pub cast_to_int64 : Value num → Outcome EvalError ℤ
  cast_to_int64 (int_value n) = done n
  cast_to_int64 (int8_value n) = done n
  cast_to_int64 (int16_value n) = done n
  cast_to_int64 (int32_value n) = done n
  cast_to_int64 (int64_value n) = done n
  cast_to_int64 (float32_value f) = done (num.int_of_float32 f)
  cast_to_int64 (float64_value f) = done (num.int_of_float f)
  cast_to_int64 (decimal_value d) =
      if num.is_integer d then done (wrap64 (num.big_int d)) else error exact_conversion_impossible
  cast_to_int64 _ = error cannot_cast

  unfoldable pub cast_to_float64 : Value num → Outcome EvalError num.Float64
  cast_to_float64 (int_value n) = done (num.float_of_int n)
  cast_to_float64 (int8_value n) = done (num.float_of_int n)
  cast_to_float64 (int16_value n) = done (num.float_of_int n)
  cast_to_float64 (int32_value n) = done (num.float_of_int n)
  cast_to_float64 (int64_value n) = done (num.float_of_int n)
  cast_to_float64 (float32_value f) = done (num.widen f)
  cast_to_float64 (float64_value f) = done f
  cast_to_float64 (decimal_value d) = done (num.float_of_decimal d)
  cast_to_float64 _ = error cannot_cast

  unfoldable pub cast_to_decimal : Value num → Outcome EvalError num.Decimal
  cast_to_decimal (int_value n) = done (num.decimal_of_int n)
  cast_to_decimal (int8_value n) = done (num.decimal_of_int n)
  cast_to_decimal (int16_value n) = done (num.decimal_of_int n)
  cast_to_decimal (int32_value n) = done (num.decimal_of_int n)
  cast_to_decimal (int64_value n) = done (num.decimal_of_int n)
  cast_to_decimal (float32_value f) = done (num.decimal_of_float32 f)
  cast_to_decimal (float64_value f) = done (num.decimal_of_float f)
  cast_to_decimal (decimal_value d) = done d
  cast_to_decimal _ = error cannot_cast

  abbrev pub is_float : Value num → Bool
  is_float (float64_value f) = true
  is_float _ = false

  abbrev pub is_decimal : Value num → Bool
  is_decimal (decimal_value d) = true
  is_decimal _ = false

  -- A cast of both arguments, the left one first.
  unfoldable pub cast_both :
      {A : Type 0}
      → (Value num → Outcome EvalError A)
      → (A → Value num)
      → Value num
      → Value num
      → Outcome EvalError (Value num × Value num)
  cast_both cast wrap l r = and_then (cast l) (λ a. and_then (cast r) (λ b. done (wrap a, wrap b)))

  unfoldable pub cast_standard_pair :
      Value num → Value num → Outcome EvalError (Value num × Value num)
  unfolding cast_both cast_to_float64 cast_to_decimal cast_to_int64
  cast_standard_pair l r =
      if is_float l || is_float r
      then cast_both cast_to_float64 float64_value l r
      else if is_decimal l || is_decimal r
      then cast_both cast_to_decimal decimal_value l r
      else cast_both cast_to_int64 int64_value l r

  -- An error of a call, with another text.
  unfoldable pub or_error : {A : Type 0} → EvalError → Outcome EvalError A → Outcome EvalError A
  or_error why (done a) = done a
  or_error why (error e) = error why

  -- castNumberPairToCommonType
  unfoldable pub cast_number_pair_to_common_type :
      Value num → Value num → Outcome EvalError (Value num × Value num)
  unfolding cast_standard_pair or_error cast_number_to_standard_type
  cast_number_pair_to_common_type left right =
      and_then (or_error invalid_left_arg (cast_number_to_standard_type left)) (λ l.
        and_then (or_error invalid_right_arg (cast_number_to_standard_type right))
          (λ r. cast_standard_pair l r))
