-- ===== src/Dpc/Key.antt =====
-- The keys that order the events of a dependency check, BuildKey of pkg/sc/key.go for fields of
-- type int and bool, the types that the order of a dependency policy may use.
use Prim.Native.String.{String}
use text.Mathlib.Text.{◌==◌ as str_eq}
use capillaries.Prelude.{
  ℕ, zero, suc, ◌+◌, ◌-◌, ◌/◌, ◌%◌, Bool, true, false, Option, none, some, List, [], ◌∷◌, ◌++◌, map,
  ltb, leb, ◌&&◌, if◌then◌else◌,
}
use capillaries.Prelude.Int.{ℤ, pos, negsuc, wrap64}
use capillaries.Prelude.Text.{Text}
use capillaries.Dpc.Expr.{EvalValue, int64_val, bool_val, Attributes}

pub data SortOrder : Type 0 where
  sort_asc sort_desc : SortOrder

pub data KeyFieldType : Type 0 where
  int_field bool_field : KeyFieldType

pub record IdxComponentDef : Type 0 where
  pub field_name : String
  pub sort_order : SortOrder
  pub field_type : KeyFieldType

-- The `w` last decimal digits of a number, in front of a text: `%020d` writes 20 of them, which is
-- enough for an int64.
unfoldable pub padded_digits : ℕ → ℕ → Text → Text
padded_digits zero n s = s
padded_digits (suc w) n s = padded_digits w (n / 10) ((48 + n % 10) ∷ s)

-- A sign takes one of the places.
unfoldable pub zero_padded : ℤ → Text
unfolding padded_digits
zero_padded (pos n) = padded_digits 20 n []
zero_padded (negsuc n) = b'-' ∷ padded_digits 19 (suc n) []

-- `flipReplacer`: each digit d becomes 9 - d; other bytes stay.
unfoldable pub flip_digit : ℕ → ℕ
flip_digit c = if leb 48 c && leb c 57 then 105 - c else c

-- The sign `0` or `-`, and the number without it; of a negative number every digit is flipped. The
-- negation is the int64 one, which leaves the least number as it is.
unfoldable pub int_key : ℤ → Text
unfolding zero_padded flip_digit
int_key (pos n) = b'0' ∷ zero_padded (pos n)
int_key (negsuc n) = map flip_digit (b'-' ∷ zero_padded (wrap64 (pos (suc n))))

unfoldable pub bool_key : Bool → Text
bool_key true = b'T' ∷ []
bool_key false = b'F' ∷ []

unfoldable pub hex_digit : ℕ → ℕ
hex_digit d = if ltb d 10 then 48 + d else 87 + d

-- `hex.EncodeToString` of the complement of each byte.
unfoldable pub descending_key : Text → Text
unfolding hex_digit
descending_key [] = []
descending_key (c ∷ s) = hex_digit ((255 - c) / 16) ∷ hex_digit ((255 - c) % 16) ∷ descending_key s

abbrev pub ordered_key : SortOrder → Text → Text
ordered_key sort_asc s = s
ordered_key sort_desc s = descending_key s

-- The text of a value of the component's type; a value of another type is an error.
unfoldable pub component_key : KeyFieldType → EvalValue → Option Text
unfolding int_key bool_key
component_key int_field (int64_val n) = some (int_key n)
component_key bool_field (bool_val b) = some (bool_key b)
component_key _ _ = none

unfoldable pub field_value : String → Attributes → Option EvalValue
field_value name [] = none
field_value name ((k, v) ∷ l) = if str_eq k name then some v else field_value name l

infixl 5 ◌>>=◌
abbrev ◌>>=◌ {ℓ κ} : {A : Type ℓ} {B : Type κ} → Option A → (A → Option B) → Option B
none >>= f = none
some a >>= f = f a

-- `none` is an error: a field that is missing, or of another type than the component's.
unfoldable pub build_key : Attributes → List IdxComponentDef → Option Text
unfolding component_key field_value descending_key
build_key fields [] = some []
build_key fields (c ∷ comps) = do
  v ← field_value c.field_name fields
  s ← component_key c.field_type v
  rest ← build_key fields comps
  some (ordered_key c.sort_order s ++ rest)
