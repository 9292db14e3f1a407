-- ===== src/Prelude/Decimal.antt =====
-- Decimal texts of Go: `strconv.ParseInt(s, 10, 64)`, and the `%d` of fmt, for numbers of at most twenty digits, which an int64 has.
use Prim.Native.Nat.{ℕ, zero, suc, compare, Ordering, ◌+◌, ◌-◌, ◌*◌, ◌/◌, ◌%◌}
use mathlib.Core.Bool.{◌&&◌}
use mathlib.Core.Option.{Option, none, some}
use mathlib.Core.List.{[], ◌∷◌}
use capillaries.Prelude.Tests.{leb, ◌==◌, if◌then◌else◌}
use capillaries.Prelude.Int.{ℤ, pos, negsuc}
use capillaries.Prelude.Text.{Text}

-- The digits of a number in front of those already found.
unfoldable pub digits : ℕ → ℕ → Text → Text
digits zero n found = found
digits (suc fuel) n found = elim (compare n 10) [
  | Ordering.lt ↦ (48 + n) ∷ found
  | _ ↦ digits fuel (n / 10) ((48 + n % 10) ∷ found)
]

unfoldable pub decimal : ℤ → Text
unfolding digits
decimal (pos n) = digits 20 n []
decimal (negsuc n) = 45 ∷ digits 20 (suc n) []

-- The number that digits write, in front of one already read.
unfoldable pub read_digits : ℕ → Text → Option ℕ
read_digits n [] = some n
read_digits n (c ∷ s) =
    let rest = read_digits (n * 10 + (c - 48)) s in if leb 48 c && leb c 57 then rest else none

abbrev in_range : ℕ → (ℕ → ℤ) → Option ℕ → Option ℤ
in_range limit sign none = none
in_range limit sign (some n) = if leb n limit then some (sign n) else none

abbrev negated : ℕ → ℤ
negated zero = pos zero
negated (suc n) = negsuc n

-- An optional sign and digits, of a number that fits int64.
unfoldable pub parse_int : Text → Option ℤ
unfolding read_digits
parse_int [] = none
parse_int (c ∷ []) = in_range 9223372036854775807 pos (read_digits 0 (c ∷ []))
parse_int (c ∷ d ∷ s) =
    if c == 45
    then in_range 9223372036854775808 negated (read_digits 0 (d ∷ s))
    else in_range 9223372036854775807 pos (read_digits 0 (if c == 43 then d ∷ s else c ∷ d ∷ s))
