-- ===== src/Prelude/Int.antt =====
-- Signed integers, their order, and the wrap-around of Go's int64 and int16.
use Prim.Native.Nat.{ℕ, suc, ◌+◌, ◌-◌, ◌%◌, ◌^◌, ◌≤◌}
use mathlib.Core.Path.{◌≡◌}
use mathlib.Core.Bool.{Bool, true}
use native.Mathlib.Omega.{arith}
use capillaries.Prelude.Tests.{ltb, leb, ◌==◌, if◌then◌else◌}

-- `negsuc n` is -(n + 1).
pub data ℤ : Type 0 where
  pos : ℕ → ℤ
  negsuc : ℕ → ℤ

abbrev pub pos_part : ℤ → ℕ
pos_part (pos n) = n
pos_part (negsuc n) = 0

abbrev pub neg_part : ℤ → ℕ
neg_part (pos n) = 0
neg_part (negsuc n) = suc n

-- a - b, as an integer.
abbrev pub sub_ℕ : ℕ → ℕ → ℤ
sub_ℕ a b = if leb b a then pos (a - b) else negsuc (b - a - 1)

infixl 65 ◌+ℤ◌ ◌-ℤ◌
unfoldable pub ◌+ℤ◌ : ℤ → ℤ → ℤ
a +ℤ b = sub_ℕ (pos_part a + pos_part b) (neg_part a + neg_part b)

unfoldable pub ◌-ℤ◌ : ℤ → ℤ → ℤ
a -ℤ b = sub_ℕ (pos_part a + neg_part b) (neg_part a + pos_part b)

infix 50 ◌<ℤ◌ ◌≤ℤ◌
abbrev pub ◌≤ℤ◌ : ℤ → ℤ → Type 0
a ≤ℤ b = pos_part a + neg_part b ≤ pos_part b + neg_part a

abbrev pub ◌<ℤ◌ : ℤ → ℤ → Type 0
a <ℤ b = suc (pos_part a + neg_part b) ≤ pos_part b + neg_part a

-- The tests `a < b` and `a == b`.
abbrev pub int_lt : ℤ → ℤ → Bool
int_lt a b = ltb (pos_part a + neg_part b) (pos_part b + neg_part a)

abbrev pub int_eq : ℤ → ℤ → Bool
int_eq a b = (pos_part a + neg_part b) == (pos_part b + neg_part a)

-- The residue of an integer modulo `m`, in `0 .. m - 1`.
abbrev residue : ℕ → ℤ → ℕ
residue m (pos n) = n % m
residue m (negsuc n) = m - 1 - n % m

-- The two's complement reading of a residue.
abbrev signed : ℕ → ℕ → ℤ
signed half r = if ltb r half then pos r else negsuc (half + half - 1 - r)

-- The result of an int64 operation.
unfoldable pub wrap64 : ℤ → ℤ
wrap64 a = signed (2 ^ 63) (residue (2 ^ 64) a)

abbrev pub max_int64 : ℤ
max_int64 = pos 9223372036854775807

abbrev pub min_int64 : ℤ
min_int64 = negsuc 9223372036854775807

-- A value that fits is unchanged.
pub wrap64_of_fits : (a : ℤ) → min_int64 ≤ℤ a → a ≤ℤ max_int64 → wrap64 a ≡ a
unfolding wrap64
wrap64_of_fits (pos n) l h = ground arith
wrap64_of_fits (negsuc n) l h = ground arith

-- The conversion `int16(a)`.
unfoldable pub wrap16 : ℤ → ℤ
wrap16 a = signed 32768 (residue 65536 a)

-- A value that fits is unchanged.
pub wrap16_of_fits : (a : ℤ) → negsuc 32767 ≤ℤ a → a ≤ℤ pos 32767 → wrap16 a ≡ a
unfolding wrap16
wrap16_of_fits (pos n) l h = ground arith
wrap16_of_fits (negsuc n) l h = ground arith

pub eq_of_parts : (a b : ℤ) → pos_part a + neg_part b ≡ pos_part b + neg_part a → a ≡ b
eq_of_parts (pos a) (pos b) h = ground arith
eq_of_parts (pos a) (negsuc b) h = ground arith
eq_of_parts (negsuc a) (pos b) h = ground arith
eq_of_parts (negsuc a) (negsuc b) h = ground arith

pub eq_of_int_eq : (a b : ℤ) → int_eq a b ≡ true → a ≡ b
eq_of_int_eq a b h = eq_of_parts a b (ground arith)
