-- ===== src/Eval/Numbers.antt =====
-- The values of pkg/eval. Floating point numbers and the decimals of shopspring/decimal are
-- parameters, with the operations that the package uses.
use capillaries.Prelude.{Bool}
use capillaries.Prelude.Int.{ℤ}
use capillaries.Prelude.Text.{Text}

pub record Numbers : Type 1 where
  pub Float32 : Type 0
  pub Float64 : Type 0
  pub Decimal : Type 0
  -- Conversions: `float64(f)`, `int64(f)`, `float64(i)`, those of decimals.
  pub widen : Float32 → Float64
  pub int_of_float32 : Float32 → ℤ
  pub int_of_float : Float64 → ℤ
  pub float_of_int : ℤ → Float64
  pub float_of_decimal : Decimal → Float64
  pub decimal_of_int : ℤ → Decimal
  pub decimal_of_float32 : Float32 → Decimal
  pub decimal_of_float : Float64 → Decimal
  pub is_integer : Decimal → Bool
  pub big_int : Decimal → ℤ
  -- Arithmetic and order.
  pub float_add : Float64 → Float64 → Float64
  pub float_div : Float64 → Float64 → Float64
  pub float_lt : Float64 → Float64 → Bool
  pub decimal_add : Decimal → Decimal → Decimal
  pub decimal_div : Decimal → Decimal → Decimal
  pub decimal_round : ℤ → Decimal → Decimal
  pub decimal_lt : Decimal → Decimal → Bool
  -- The starting values of the collectors.
  pub zero_float : Float64
  pub max_float : Float64
  pub min_float : Float64
  pub max_decimal : Decimal
  pub min_decimal : Decimal

-- A value of dynamic type.
pub data Value (num : Numbers) : Type 0 where
  int_value int8_value int16_value int32_value int64_value : ℤ → Value num
  float32_value : num.Float32 → Value num
  float64_value : num.Float64 → Value num
  decimal_value : num.Decimal → Value num
  string_value : Text → Value num
  bool_value : Bool → Value num
  other_value : Value num

pub data EvalError : Type 0 where
  cannot_cast invalid_left_arg invalid_right_arg exact_conversion_impossible : EvalError
  agg_not_enabled extra_agg_call wrong_arg_count unexpected_if_type : EvalError
  started_with_another_type unexpected_argument index_out_of_range : EvalError
