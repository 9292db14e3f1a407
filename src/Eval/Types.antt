-- ===== src/Eval/Types.antt =====
-- The types of the values of an aggregate, pkg/eval/agg.go: the first value sets the type, and a
-- value of another type is an error.
use mathlib.Core.Path.{subst}
use capillaries.Prelude.{
  ◌≡◌, ◌≢◌, refl, ◌∙◌, Bool, true, List, [], ◌∷◌, ℕ, inl, inr, ◌⊎◌, arith, if_ind, if◌then◌else◌,
}
use capillaries.Prelude.Int.{ℤ}
use capillaries.Prelude.Outcome.{Outcome, done, error}
use capillaries.Eval.Numbers.{
  EvalError, Numbers, Value, int_value, int8_value, int16_value, int32_value, int64_value,
  float32_value, float64_value, decimal_value, string_value, bool_value, other_value,
  started_with_another_type,
}
use capillaries.Eval.Cast.{cast_number_to_standard_type}
use capillaries.Eval.Agg.{
  AggDataType, AggFunc, EvalCtx, Evaluated, agg_type_dec, agg_type_float, agg_type_int,
  agg_type_string, agg_type_unknown, with_type, same_type,
}
use capillaries.Eval.Collect.{on_number}
use capillaries.Eval.Calls.{call_agg, check_agg, checked}

-- The type under which an aggregate knows a value.
abbrev pub type_of : {num : Numbers} → Value num → AggDataType
type_of (int_value n) = agg_type_int
type_of (int8_value n) = agg_type_int
type_of (int16_value n) = agg_type_int
type_of (int32_value n) = agg_type_int
type_of (int64_value n) = agg_type_int
type_of (float32_value f) = agg_type_float
type_of (float64_value f) = agg_type_float
type_of (decimal_value d) = agg_type_dec
type_of (string_value s) = agg_type_string
type_of _ = agg_type_unknown

eq_of_same_type : (a b : AggDataType) → same_type a b ≡ true → a ≡ b
unfolding same_type
eq_of_same_type agg_type_unknown b h = ground arith
eq_of_same_type agg_type_int b h = ground arith
eq_of_same_type agg_type_float b h = ground arith
eq_of_same_type agg_type_dec b h = ground arith
eq_of_same_type agg_type_string b h = ground arith

module _ {num : Numbers} where
  -- What an outcome without an error says about the type of a value.
  abbrev pub Accepts : AggDataType → EvalCtx num → Evaluated num → Type 0
  Accepts t ctx e =
      (r : Value num)
      → e.1 ≡ done r
      → (e.0.agg_type ≡ t)
        × (t ≢ agg_type_unknown)
        × ((ctx.agg_type ≡ agg_type_unknown) ⊎ (ctx.agg_type ≡ t))

  -- What is applied leaves the type.
  abbrev KeepsType : (EvalCtx num → Evaluated num) → Type 0
  KeepsType f = (c : EvalCtx num) → (f c).0.agg_type ≡ c.agg_type

  pub with_type-Accepts :
      (t : AggDataType) (ctx : EvalCtx num) (apply : EvalCtx num → Evaluated num)
      → t ≢ agg_type_unknown
      → KeepsType apply
      → Accepts t ctx (with_type t ctx apply)
  unfolding with_type
  with_type-Accepts t ctx apply n k =
      if_ind (Accepts t ctx) (same_type ctx.agg_type agg_type_unknown)
        (apply (record ctx { agg_type = t }))
        (if same_type ctx.agg_type t then apply ctx else (ctx, error started_with_another_type))
        (λ u r e. (
          k (record ctx { agg_type = t }),
          n,
          inl (eq_of_same_type ctx.agg_type agg_type_unknown u),
        ))
        (λ _.
          if_ind (Accepts t ctx) (same_type ctx.agg_type t) (apply ctx)
            (ctx, error started_with_another_type)
            (λ s r e. let same = eq_of_same_type ctx.agg_type t s in (k ctx ∙ same, n, inr same))
            (λ _ r e. cc))

  pub on_number-Accepts :
      (int : ℤ → Bool → EvalCtx num → Evaluated num)
      (float : num.Float64 → Bool → EvalCtx num → Evaluated num)
      (dec : num.Decimal → Bool → EvalCtx num → Evaluated num)
      → ((v : ℤ) → KeepsType (int v true))
      → ((v : num.Float64) → KeepsType (float v true))
      → ((v : num.Decimal) → KeepsType (dec v true))
      → (v : Value num) (ctx : EvalCtx num)
      → Accepts
          (type_of v)
          ctx
          (on_number int float dec (cast_number_to_standard_type num v) true ctx)
  unfolding on_number cast_number_to_standard_type
  on_number-Accepts int float dec ki kf kd (int_value n) ctx =
      with_type-Accepts agg_type_int ctx (int n true) (λ e. cc) (ki n)
  on_number-Accepts int float dec ki kf kd (int8_value n) ctx =
      with_type-Accepts agg_type_int ctx (int n true) (λ e. cc) (ki n)
  on_number-Accepts int float dec ki kf kd (int16_value n) ctx =
      with_type-Accepts agg_type_int ctx (int n true) (λ e. cc) (ki n)
  on_number-Accepts int float dec ki kf kd (int32_value n) ctx =
      with_type-Accepts agg_type_int ctx (int n true) (λ e. cc) (ki n)
  on_number-Accepts int float dec ki kf kd (int64_value n) ctx =
      with_type-Accepts agg_type_int ctx (int n true) (λ e. cc) (ki n)
  on_number-Accepts int float dec ki kf kd (float32_value f) ctx =
      with_type-Accepts agg_type_float ctx (float (num.widen f) true) (λ e. cc) (kf (num.widen f))
  on_number-Accepts int float dec ki kf kd (float64_value f) ctx =
      with_type-Accepts agg_type_float ctx (float f true) (λ e. cc) (kf f)
  on_number-Accepts int float dec ki kf kd (decimal_value d) ctx =
      with_type-Accepts agg_type_dec ctx (dec d true) (λ e. cc) (kd d)
  on_number-Accepts int float dec ki kf kd (string_value s) ctx = λ r e. cc
  on_number-Accepts int float dec ki kf kd (bool_value b) ctx = λ r e. cc
  on_number-Accepts int float dec ki kf kd other_value ctx = λ r e. cc

  -- The checks of a call with one argument leave the type, and then the value is applied.
  abbrev pub IsTyped : (List (Value num) → EvalCtx num → Evaluated num) → Type 0
  IsTyped f = (v : Value num) (ctx : EvalCtx num) → Accepts (type_of v) ctx (f (v ∷ []) ctx)

  after_check :
      (t : AggDataType) (ctx : EvalCtx num) (internal : EvalCtx num → Evaluated num)
      (o : Outcome EvalError (EvalCtx num))
      → ((c : EvalCtx num) → o ≡ done c → c.agg_type ≡ ctx.agg_type)
      → ((c : EvalCtx num) → Accepts t c (internal c))
      → Accepts t ctx (checked o ctx internal)
  unfolding checked
  after_check t ctx internal (done c) k a r e =
      let accepted = a c r e in
      (accepted.0, accepted.1, subst (λ u. (u ≡ agg_type_unknown) ⊎ (u ≡ t)) (k c refl) accepted.2)
  after_check t ctx internal (error why) k a r e = cc

  check_agg-agg_type :
      (call_exp : ℕ) (agg_func : AggFunc) (ctx c : EvalCtx num)
      → check_agg call_exp agg_func ctx ≡ done c
      → c.agg_type ≡ ctx.agg_type
  unfolding check_agg
  check_agg-agg_type call_exp agg_func ctx c h = ground arith

  pub call_agg-IsTyped :
      (agg_func : AggFunc) (internal : Value num → Bool → EvalCtx num → Evaluated num)
      (call_exp : ℕ)
      → ((v : Value num) (ctx : EvalCtx num) → Accepts (type_of v) ctx (internal v true ctx))
      → IsTyped (call_agg agg_func 1 internal call_exp)
  unfolding call_agg
  call_agg-IsTyped agg_func internal call_exp a v ctx =
      after_check (type_of v) ctx (λ c. internal v true c) (check_agg call_exp agg_func ctx)
        (λ c e. check_agg-agg_type call_exp agg_func ctx c e) (λ c. a v c)
