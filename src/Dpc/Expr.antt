-- ===== src/Dpc/Expr.antt =====
-- The part of pkg/eval/eval_ctx.go that rules over statuses use: literals, constants, selectors,
-- comparisons of integers and of Booleans, and the logical operators. The values are int64 and
-- bool, the types of the variables that a rule sees.
use Prim.Native.String.{String}
use text.Mathlib.Text.{◌==◌ as str_eq}
use capillaries.Prelude.{Bool, true, false, not, ◌&&◌, ◌||◌, List, [], ◌∷◌, if◌then◌else◌}
use capillaries.Prelude.Int.{ℤ, int_lt, int_eq}

pub data EvalValue : Type 0 where
  int64_val : ℤ → EvalValue
  bool_val : Bool → EvalValue

pub data Op : Type 0 where
  eql neq lss gtr leq geq land lor : Op

pub data Expr : Type 0 where
  int_lit : ℤ → Expr
  ident : String → Expr
  selector : String → String → Expr
  unary_not : Expr → Expr
  binary : Op → Expr → Expr → Expr

pub data EvalError : Type 0 where
  unknown_object unknown_field unknown_ident : String → EvalError
  bad_operand : EvalError
  bad_op : Op → EvalError

pub data Eval : Type 0 where
  value : EvalValue → Eval
  failed : EvalError → Eval

-- An object's attributes, and the objects by name.
abbrev pub Attributes : Type 0
Attributes = List (String × EvalValue)

abbrev pub Vars : Type 0
Vars = List (String × Attributes)

find_attribute : String → Attributes → Eval
find_attribute name [] = failed (unknown_field name)
find_attribute name ((k, v) ∷ l) = if str_eq k name then value v else find_attribute name l

-- `eCtx.evalVars[objectIdent.Name]`, then `objectAttributes[exp.Sel.Name]`; none of the constants
-- has the name of a variable that a rule may use.
unfoldable pub eval_selector : String → String → Vars → Eval
unfolding find_attribute
eval_selector object name [] = failed (unknown_object object)
eval_selector object name ((k, l) ∷ vars) =
    if str_eq k object then find_attribute name l else eval_selector object name vars

-- The constants `true` and `false`; there are no variables without an object.
unfoldable pub eval_ident : String → Eval
eval_ident name =
    if str_eq name "true"
    then value (bool_val true)
    else if str_eq name "false"
    then value (bool_val false)
    else failed (unknown_ident name)

unfoldable pub eval_binary_int_to_bool : Op → ℤ → ℤ → Eval
eval_binary_int_to_bool gtr a b = value (bool_val (int_lt b a))
eval_binary_int_to_bool lss a b = value (bool_val (int_lt a b))
eval_binary_int_to_bool geq a b = value (bool_val (not (int_lt a b)))
eval_binary_int_to_bool leq a b = value (bool_val (not (int_lt b a)))
eval_binary_int_to_bool eql a b = value (bool_val (int_eq a b))
eval_binary_int_to_bool neq a b = value (bool_val (not (int_eq a b)))
eval_binary_int_to_bool op a b = failed (bad_op op)

abbrev bool_eq : Bool → Bool → Bool
bool_eq true b = b
bool_eq false b = not b

unfoldable pub eval_binary_bool_to_bool : Op → Bool → Bool → Eval
eval_binary_bool_to_bool eql a b = value (bool_val (bool_eq a b))
eval_binary_bool_to_bool neq a b = value (bool_val (not (bool_eq a b)))
eval_binary_bool_to_bool op a b = failed (bad_op op)

unfoldable pub eval_binary_bool : Op → Bool → Bool → Eval
eval_binary_bool land a b = value (bool_val (a && b))
eval_binary_bool lor a b = value (bool_val (a || b))
eval_binary_bool op a b = failed (bad_op op)

unfoldable pub eval_compare : Op → EvalValue → EvalValue → Eval
unfolding eval_binary_int_to_bool eval_binary_bool_to_bool
eval_compare op (int64_val a) (int64_val b) = eval_binary_int_to_bool op a b
eval_compare op (bool_val a) (bool_val b) = eval_binary_bool_to_bool op a b
eval_compare op _ _ = failed bad_operand

unfoldable pub eval_logical : Op → EvalValue → EvalValue → Eval
unfolding eval_binary_bool
eval_logical op (bool_val a) (bool_val b) = eval_binary_bool op a b
eval_logical op _ _ = failed bad_operand

unfoldable pub eval_op : Op → EvalValue → EvalValue → Eval
unfolding eval_compare eval_logical
eval_op land a b = eval_logical land a b
eval_op lor a b = eval_logical lor a b
eval_op op a b = eval_compare op a b

-- Both sides are evaluated, the left one first, whatever the operator.
abbrev both : Op → Eval → Eval → Eval
both op (failed e) r = failed e
both op (value a) (failed e) = failed e
both op (value a) (value b) = eval_op op a b

unfoldable pub eval_not : Eval → Eval
eval_not (failed e) = failed e
eval_not (value (bool_val b)) = value (bool_val (not b))
eval_not (value (int64_val n)) = failed bad_operand

-- A parenthesised expression is its inside.
unfoldable pub eval : Vars → Expr → Eval
unfolding eval_selector eval_ident eval_op eval_not
eval vars (int_lit n) = value (int64_val n)
eval vars (ident name) = eval_ident name
eval vars (selector object name) = eval_selector object name vars
eval vars (unary_not e) = eval_not (eval vars e)
eval vars (binary op x y) = both op (eval vars x) (eval vars y)
