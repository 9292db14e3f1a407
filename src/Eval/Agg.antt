-- ===== src/Eval/Agg.antt =====
-- pkg/eval/agg.go: the collectors of the aggregate functions, and what one value does to them. A
-- call is known by a number, its expression in the source. `avg` keeps an exact sum of integers.
use capillaries.Prelude.{
  Bool, true, false, [], ◌++◌, ◌/◌, ℕ, Option, none, ◌==◌, length, if◌then◌else◌,
}
use capillaries.Prelude.Int.{max_int64, min_int64, ℤ, pos, negsuc, wrap64, ◌+ℤ◌}
use capillaries.Prelude.Text.{Text, bytes, text_eq}
use capillaries.Prelude.Outcome.{Outcome, done, error}
use capillaries.Eval.Numbers.{
  EvalError, Numbers, Value, decimal_value, float64_value, int64_value, string_value,
  started_with_another_type, unexpected_argument,
}

pub data AggFunc : Type 0 where
  agg_string_agg agg_string_agg_if agg_sum agg_sum_if agg_count agg_count_if : AggFunc
  agg_avg agg_avg_if agg_min agg_min_if agg_max agg_max_if agg_unknown : AggFunc

-- StringToAggFunc
unfoldable pub string_to_agg_func : Text → AggFunc
string_to_agg_func s =
    if text_eq s (bytes "string_agg")
    then agg_string_agg
    else if text_eq s (bytes "string_agg_if")
    then agg_string_agg_if
    else if text_eq s (bytes "sum")
    then agg_sum
    else if text_eq s (bytes "sum_if")
    then agg_sum_if
    else if text_eq s (bytes "count")
    then agg_count
    else if text_eq s (bytes "count_if")
    then agg_count_if
    else if text_eq s (bytes "avg")
    then agg_avg
    else if text_eq s (bytes "avg_if")
    then agg_avg_if
    else if text_eq s (bytes "min_if")
    then agg_min_if
    else if text_eq s (bytes "min")
    then agg_min
    else if text_eq s (bytes "max")
    then agg_max
    else if text_eq s (bytes "max_if")
    then agg_max_if
    else agg_unknown

pub data AggDataType : Type 0 where
  agg_type_unknown agg_type_int agg_type_float agg_type_dec agg_type_string : AggDataType

unfoldable pub same_type : AggDataType → AggDataType → Bool
same_type agg_type_unknown agg_type_unknown = true
same_type agg_type_int agg_type_int = true
same_type agg_type_float agg_type_float = true
same_type agg_type_dec agg_type_dec = true
same_type agg_type_string agg_type_string = true
same_type _ _ = false

-- SumCollector, without the counts; AvgCollector, MinCollector and MaxCollector have one.
pub record Collector (num : Numbers) : Type 0 where
  pub int : ℤ
  pub float : num.Float64
  pub dec : num.Decimal
  pub str : Text
  pub count : ℤ

pub record StringAgg : Type 0 where
  pub sb : Text
  pub separator : Text

-- The fields of EvalCtx that aggregate functions use.
pub record EvalCtx (num : Numbers) : Type 0 where
  pub agg_enabled : Bool
  pub agg_call_exp : Option ℕ
  pub agg_func : AggFunc
  pub agg_type : AggDataType
  pub string_agg_collector : StringAgg
  pub sum_collector : Collector num
  pub avg_collector : Collector num
  pub min_collector : Collector num
  pub max_collector : Collector num
  pub count : ℤ
  pub round_dec : ℤ

-- The value of a call and the context after it.
abbrev pub Evaluated : Numbers → Type 0
Evaluated num = EvalCtx num × Outcome EvalError (Value num)

-- `big.Int.Div` by a positive number.
unfoldable pub div_count : ℤ → ℤ → ℤ
div_count (pos n) (pos c) = pos (n / c)
div_count (negsuc n) (pos c) = negsuc (n / c)
div_count a (negsuc c) = a

module _ {num : Numbers} where
  abbrev pub empty_collector : ℤ → num.Float64 → num.Decimal → Collector num
  empty_collector i f d = record { int = i; float = f; dec = d; str = []; count = pos 0 }

  -- newPlainEvalCtxInternal
  unfoldable pub new_plain_eval_ctx_internal : Bool → EvalCtx num
  new_plain_eval_ctx_internal enabled = record {
    agg_enabled = enabled;
    agg_call_exp = none;
    agg_func = agg_unknown;
    agg_type = agg_type_unknown;
    string_agg_collector = record { sb = []; separator = [] };
    sum_collector = empty_collector (pos 0) num.zero_float (num.decimal_of_int (pos 0));
    avg_collector = empty_collector (pos 0) num.zero_float (num.decimal_of_int (pos 0));
    min_collector = empty_collector max_int64 num.max_float num.max_decimal;
    max_collector = empty_collector min_int64 num.min_float num.min_decimal;
    count = pos 0;
    round_dec = negsuc 0;
  }

  -- The first value sets the type of the aggregate, and later ones must have it; then the value is
  -- applied to the context.
  unfoldable pub with_type :
      AggDataType → EvalCtx num → (EvalCtx num → Evaluated num) → Evaluated num
  unfolding same_type
  with_type t ctx apply =
      if same_type ctx.agg_type agg_type_unknown
      then apply (record ctx { agg_type = t })
      else if same_type ctx.agg_type t
      then apply ctx
      else (ctx, error started_with_another_type)

  -- A collector with one more value.
  abbrev pub counted : Collector num → Collector num
  counted c = record c { count = wrap64 (c.count +ℤ pos 1) }

  unfoldable pub call_agg_string_agg_internal : Value num → Bool → EvalCtx num → Evaluated num
  call_agg_string_agg_internal (string_value s) is_apply ctx =
      let a = ctx.string_agg_collector in
      let sb =
        if is_apply then (if length a.sb == 0 then s else a.sb ++ a.separator ++ s) else a.sb in
      (
        record ctx { string_agg_collector = record { sb = sb; separator = a.separator } },
        done (string_value sb),
      )
  call_agg_string_agg_internal _ is_apply ctx = (ctx, error unexpected_argument)

  -- The context after a value of the type has been applied to the sum, and the sum.
  unfoldable pub sum_int : ℤ → Bool → EvalCtx num → Evaluated num
  sum_int v is_apply ctx =
      let c = ctx.sum_collector in
      let sum = if is_apply then wrap64 (c.int +ℤ v) else c.int in
      (record ctx { sum_collector = record c { int = sum } }, done (int64_value sum))

  unfoldable pub sum_float : num.Float64 → Bool → EvalCtx num → Evaluated num
  sum_float v is_apply ctx =
      let c = ctx.sum_collector in
      let sum = if is_apply then num.float_add c.float v else c.float in
      (record ctx { sum_collector = record c { float = sum } }, done (float64_value sum))

  unfoldable pub sum_dec : num.Decimal → Bool → EvalCtx num → Evaluated num
  sum_dec v is_apply ctx =
      let c = ctx.sum_collector in
      let sum = if is_apply then num.decimal_add c.dec v else c.dec in
      (record ctx { sum_collector = record c { dec = sum } }, done (decimal_value sum))
