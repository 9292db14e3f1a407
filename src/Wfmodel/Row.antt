-- ===== src/Wfmodel/Row.antt =====
-- pkg/wfmodel/util.go: reading typed fields from a database row, a map from column names to values
-- of dynamic type. Times are instants, in nanoseconds since the Unix epoch.
use Prim.Native.String.{String}
use text.Mathlib.Text.{◌==◌ as str_eq}
use capillaries.Prelude.{◌≡◌, refl, ap, ◌/◌, List, [], ◌∷◌, if◌then◌else◌}
use capillaries.Prelude.Int.{ℤ, pos, negsuc, wrap16}
use capillaries.Prelude.Text.{Text}

abbrev pub Time : Type 0
Time = ℤ

-- `time.Unix(0, 0)`
abbrev pub epoch : Time
epoch = pos 0

-- `time.Time{}`, the first instant of the year 1.
abbrev pub zero_time : Time
zero_time = negsuc 62135596799999999999

-- `t.Unix()`: whole seconds, rounded down.
unfoldable pub unix : Time → ℤ
unix (pos n) = pos (n / 1000000000)
unix (negsuc n) = negsuc (n / 1000000000)

-- The dynamic types that the readers tell apart.
pub data Value : Type 0 where
  int_value : ℤ → Value
  int8_value : ℤ → Value
  int16_value : ℤ → Value
  int32_value : ℤ → Value
  int64_value : ℤ → Value
  text_value : Text → Value
  time_value : Time → Value
  other_value : Value

abbrev pub Row : Type 0
Row = List (String × Value)

-- `r[fieldName]`; a missing name gives nil, which has none of the types.
unfoldable pub field : String → Row → Value
field name [] = other_value
field name ((k, v) ∷ r) = if str_eq k name then v else field name r

-- The errors of the readers and of the deserializers, with the names that their texts report.
pub data RowError : Type 0 where
  cannot_read : String → RowError
  unknown_field : String → RowError
  conflicting_total : ℤ → ℤ → RowError
  invalid_batch : ℤ → ℤ → RowError
  unexpected_sequence : RowError
  dependency_not_affected : Text → RowError

pub data Result {ℓ} (A : Type ℓ) : Type ℓ where
  ok : A → Result A
  err : RowError → Result A

module _ {ℓ κ} {A : Type ℓ} {B : Type κ} where
  infixl 5 ◌>>=◌
  -- The first error is the error of the whole.
  abbrev pub ◌>>=◌ : Result A → (A → Result B) → Result B
  err why >>= next = err why
  ok row >>= next = next row

as_time : String → Value → Result Time
as_time name (time_value t) = ok t
as_time name _ = err (cannot_read name)

unfoldable pub read_time_from_row : String → Row → Result Time
unfolding as_time field
read_time_from_row name r = as_time name (field name r)

-- Any of the integer types is converted by `int16(v)`.
as_int16 : String → Value → Result ℤ
as_int16 name (int_value v) = ok (wrap16 v)
as_int16 name (int8_value v) = ok (wrap16 v)
as_int16 name (int16_value v) = ok (wrap16 v)
as_int16 name (int32_value v) = ok (wrap16 v)
as_int16 name (int64_value v) = ok (wrap16 v)
as_int16 name _ = err (cannot_read name)

unfoldable pub read_int16_from_row : String → Row → Result ℤ
unfolding as_int16 field
read_int16_from_row name r = as_int16 name (field name r)

as_int64 : String → Value → Result ℤ
as_int64 name (int64_value v) = ok v
as_int64 name _ = err (cannot_read name)

unfoldable pub read_int64_from_row : String → Row → Result ℤ
unfolding as_int64 field
read_int64_from_row name r = as_int64 name (field name r)

as_text : String → Value → Result Text
as_text name (text_value v) = ok v
as_text name _ = err (cannot_read name)

unfoldable pub read_string_from_row : String → Row → Result Text
unfolding as_text field
read_string_from_row name r = as_text name (field name r)

-- Both status types are int8.
as_int8 : String → Value → Result ℤ
as_int8 name (int8_value v) = ok v
as_int8 name _ = err (cannot_read name)

unfoldable pub read_run_status_from_row : String → Row → Result ℤ
unfolding as_int8 field
read_run_status_from_row name r = as_int8 name (field name r)

unfoldable pub read_node_batch_status_from_row : String → Row → Result ℤ
unfolding as_int8 field
read_node_batch_status_from_row name r = as_int8 name (field name r)

module _ {ℓ κ} {A : Type ℓ} {B : Type κ} where
  -- Two continuations that agree give equal binds.
  pub >>=-ext :
      (r : Result A) (next other : A → Result B)
      → ((a : A) → next a ≡ other a)
      → (r >>= next) ≡ (r >>= other)
  >>=-ext (ok a) next other agree = agree a
  >>=-ext (err e) next other agree = refl

  -- The parts of a bind that succeeds.
  pub >>=-eq_ok :
      (r : Result A) (next : A → Result B) {b : B}
      → (r >>= next) ≡ ok b
      → (a : A) × (r ≡ ok a) × (next a ≡ ok b)
  >>=-eq_ok (ok a) next h = (a, refl, h)
  >>=-eq_ok (err e) next h = cc

pub ok_injective {ℓ} : {A : Type ℓ} {a b : A} → ok a ≡ ok b → a ≡ b
ok_injective {A} {a} {b} p = ap (value a) p
  where
    value : A → Result A → A
    value c (ok x) = x
    value c (err e) = c
