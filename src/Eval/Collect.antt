-- ===== src/Eval/Collect.antt =====
-- pkg/eval/agg.go: what one value does to the collectors of count, avg, min and max.
use capillaries.Prelude.{Bool, ◌||◌, ◌==◌, length, if◌then◌else◌}
use capillaries.Prelude.Int.{ℤ, pos, negsuc, int_lt, wrap64, ◌+ℤ◌}
use capillaries.Prelude.Text.{Text, text_lt}
use capillaries.Prelude.Outcome.{Outcome, done, error}
use capillaries.Eval.Numbers.{
  EvalError, Numbers, Value, decimal_value, float64_value, int64_value, string_value,
  unexpected_argument,
}
use capillaries.Eval.Cast.{cast_number_to_standard_type}
use capillaries.Eval.Agg.{
  Collector, EvalCtx, Evaluated, agg_type_dec, agg_type_float, agg_type_int, agg_type_string,
  counted, div_count, sum_dec, sum_float, sum_int, with_type,
}

-- `if eCtx.roundDec >= 0 { val = val.Round(eCtx.roundDec) }`
unfoldable pub rounded : (num : Numbers) → ℤ → num.Decimal → num.Decimal
rounded num (pos digits) d = num.decimal_round (pos digits) d
rounded num (negsuc _) d = d

module _ {num : Numbers} where
  unfoldable pub call_agg_count_internal : Bool → EvalCtx num → Evaluated num
  call_agg_count_internal is_apply ctx =
      let n = if is_apply then wrap64 (ctx.count +ℤ pos 1) else ctx.count in
      (record ctx { count = n }, done (int64_value n))

  unfoldable pub average_int : Collector num → ℤ
  average_int c = if int_lt (pos 0) c.count then wrap64 (div_count c.int c.count) else pos 0

  unfoldable pub avg_int : ℤ → Bool → EvalCtx num → Evaluated num
  unfolding average_int
  avg_int v is_apply ctx =
      let c = ctx.avg_collector in
      let d = if is_apply then record (counted c) { int = c.int +ℤ v } else c in
      (record ctx { avg_collector = d }, done (int64_value (average_int d)))

  unfoldable pub average_float : Collector num → num.Float64
  average_float c =
      if int_lt (pos 0) c.count
      then num.float_div c.float (num.float_of_int c.count)
      else num.float_of_int (pos 0)

  unfoldable pub avg_float : num.Float64 → Bool → EvalCtx num → Evaluated num
  unfolding average_float
  avg_float v is_apply ctx =
      let c = ctx.avg_collector in
      let d = if is_apply then record (counted c) { float = num.float_add c.float v } else c in
      (record ctx { avg_collector = d }, done (float64_value (average_float d)))

  unfoldable pub average_dec : ℤ → Collector num → num.Decimal
  unfolding rounded
  average_dec round_dec c =
      if int_lt (pos 0) c.count
      then rounded num round_dec (num.decimal_div c.dec (num.decimal_of_int c.count))
      else num.decimal_of_int (pos 0)

  unfoldable pub avg_dec : num.Decimal → Bool → EvalCtx num → Evaluated num
  unfolding average_dec
  avg_dec v is_apply ctx =
      let c = ctx.avg_collector in
      let d = if is_apply then record (counted c) { dec = num.decimal_add c.dec v } else c in
      (record ctx { avg_collector = d }, done (decimal_value (average_dec ctx.round_dec d)))

  unfoldable pub min_int : ℤ → Bool → EvalCtx num → Evaluated num
  min_int v is_apply ctx =
      let c = ctx.min_collector in
      let d =
        if is_apply then record (counted c) { int = if int_lt v c.int then v else c.int } else c in
      (record ctx { min_collector = d }, done (int64_value d.int))

  unfoldable pub min_float : num.Float64 → Bool → EvalCtx num → Evaluated num
  min_float v is_apply ctx =
      let c = ctx.min_collector in
      let d =
        if is_apply
        then record (counted c) { float = if num.float_lt v c.float then v else c.float }
        else c in
      (record ctx { min_collector = d }, done (float64_value d.float))

  unfoldable pub min_dec : num.Decimal → Bool → EvalCtx num → Evaluated num
  min_dec v is_apply ctx =
      let c = ctx.min_collector in
      let d =
        if is_apply
        then record (counted c) { dec = if num.decimal_lt v c.dec then v else c.dec }
        else c in
      (record ctx { min_collector = d }, done (decimal_value d.dec))

  -- An empty text counts as no minimum yet.
  unfoldable pub min_string : Text → Bool → EvalCtx num → Evaluated num
  min_string v is_apply ctx =
      let c = ctx.min_collector in
      let d =
        if is_apply
        then record (counted c) { str = if length c.str == 0 || text_lt v c.str then v else c.str }
        else c in
      (record ctx { min_collector = d }, done (string_value d.str))

  unfoldable pub max_int : ℤ → Bool → EvalCtx num → Evaluated num
  max_int v is_apply ctx =
      let c = ctx.max_collector in
      let d =
        if is_apply then record (counted c) { int = if int_lt c.int v then v else c.int } else c in
      (record ctx { max_collector = d }, done (int64_value d.int))

  unfoldable pub max_float : num.Float64 → Bool → EvalCtx num → Evaluated num
  max_float v is_apply ctx =
      let c = ctx.max_collector in
      let d =
        if is_apply
        then record (counted c) { float = if num.float_lt c.float v then v else c.float }
        else c in
      (record ctx { max_collector = d }, done (float64_value d.float))

  unfoldable pub max_dec : num.Decimal → Bool → EvalCtx num → Evaluated num
  max_dec v is_apply ctx =
      let c = ctx.max_collector in
      let d =
        if is_apply
        then record (counted c) { dec = if num.decimal_lt c.dec v then v else c.dec }
        else c in
      (record ctx { max_collector = d }, done (decimal_value d.dec))

  unfoldable pub max_string : Text → Bool → EvalCtx num → Evaluated num
  max_string v is_apply ctx =
      let c = ctx.max_collector in
      let d =
        if is_apply
        then record (counted c) { str = if length c.str == 0 || text_lt c.str v then v else c.str }
        else c in
      (record ctx { max_collector = d }, done (string_value d.str))

  -- The dispatch on the type of a number, after the cast to a standard type.
  unfoldable pub on_number :
      (ℤ → Bool → EvalCtx num → Evaluated num)
      → (num.Float64 → Bool → EvalCtx num → Evaluated num)
      → (num.Decimal → Bool → EvalCtx num → Evaluated num)
      → Outcome EvalError (Value num)
      → Bool
      → EvalCtx num
      → Evaluated num
  unfolding with_type
  on_number int float dec (error e) is_apply ctx = (ctx, error e)
  on_number int float dec (done (int64_value v)) is_apply ctx =
      with_type agg_type_int ctx (int v is_apply)
  on_number int float dec (done (float64_value v)) is_apply ctx =
      with_type agg_type_float ctx (float v is_apply)
  on_number int float dec (done (decimal_value v)) is_apply ctx =
      with_type agg_type_dec ctx (dec v is_apply)
  on_number int float dec (done _) is_apply ctx = (ctx, error unexpected_argument)

  unfoldable pub call_agg_sum_internal : Value num → Bool → EvalCtx num → Evaluated num
  unfolding on_number sum_int sum_float sum_dec
  call_agg_sum_internal v = on_number sum_int sum_float sum_dec (cast_number_to_standard_type num v)

  unfoldable pub call_agg_avg_internal : Value num → Bool → EvalCtx num → Evaluated num
  unfolding on_number avg_int avg_float avg_dec
  call_agg_avg_internal v = on_number avg_int avg_float avg_dec (cast_number_to_standard_type num v)

  unfoldable pub call_agg_min_internal : Value num → Bool → EvalCtx num → Evaluated num
  unfolding on_number min_int min_float min_dec min_string with_type
  call_agg_min_internal (string_value s) is_apply ctx =
      with_type agg_type_string ctx (min_string s is_apply)
  call_agg_min_internal v is_apply ctx =
      on_number min_int min_float min_dec (cast_number_to_standard_type num v) is_apply ctx

  unfoldable pub call_agg_max_internal : Value num → Bool → EvalCtx num → Evaluated num
  unfolding on_number max_int max_float max_dec max_string with_type
  call_agg_max_internal (string_value s) is_apply ctx =
      with_type agg_type_string ctx (max_string s is_apply)
  call_agg_max_internal v is_apply ctx =
      on_number max_int max_float max_dec (cast_number_to_standard_type num v) is_apply ctx
