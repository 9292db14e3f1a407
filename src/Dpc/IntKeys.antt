-- ===== src/Dpc/IntKeys.antt =====
-- The keys of int64 values in pkg/sc/key.go: one length, and the order of the values.
use capillaries.Prelude.{
  ℕ, suc, ◌<◌, ◌≡◌, refl, sym, ◌∙◌, ap, true, [], ◌∷◌, map, All, length, inl, inr, arith,
  Bool-cases, ltb,
}
use mathlib.Core.Path.{subst}
use capillaries.Prelude.Int.{
  ℤ, pos, negsuc, ◌≤ℤ◌, ◌<ℤ◌, min_int64, max_int64, wrap64, wrap64_of_fits,
}
use capillaries.Prelude.Text.{Text, text_lt}
use capillaries.Dpc.Key.{int_key, zero_padded, flip_digit}
use capillaries.Dpc.Digits.{
  places, digit, flipped, padded_digits-places, map-places, length-places, All-places, places_mono,
  places_anti, IsByte,
}

abbrev pub IsInt64 : ℤ → Type 0
IsInt64 n = (min_int64 ≤ℤ n) × (n ≤ℤ max_int64)

int_key-pos : (n : ℕ) → int_key (pos n) ≡ 48 ∷ places digit 20 n []
unfolding int_key zero_padded
int_key-pos n = ap (λ s. 48 ∷ s) (padded_digits-places 20 n [])

int_key-negsuc :
    (n : ℕ) → n < 9223372036854775807 → int_key (negsuc n) ≡ 45 ∷ places flipped 20 (suc n) []
unfolding int_key zero_padded flip_digit
int_key-negsuc n h =
    ap (λ z. 45 ∷ map flip_digit (zero_padded z))
      (wrap64_of_fits (pos (suc n)) (omega arith) (omega arith))
    ∙ ap (λ s. 45 ∷ s) (map-places 20 (suc n) [])

int_key-least :
    int_key (negsuc 9223372036854775807) ≡ 45 ∷ 45 ∷ places flipped 19 9223372036854775808 []
unfolding int_key zero_padded flip_digit wrap64
int_key-least = ap (λ s. 45 ∷ 45 ∷ s) (map-places 19 9223372036854775808 [])

-- The three forms of a key.
data KeyForm : ℤ → Type 0 where
  plain : (n : ℕ) → n < 9223372036854775808 → KeyForm (pos n)
  least : KeyForm (negsuc 9223372036854775807)
  below_zero : (n : ℕ) → n < 9223372036854775807 → KeyForm (negsuc n)

key_form : (n : ℤ) → IsInt64 n → KeyForm n
key_form (pos n) h = plain n (omega arith)
key_form (negsuc n) h = elim (Bool-cases (ltb n 9223372036854775807)) [
  | inl q ↦ below_zero n (ground arith)
  | inr q ↦ subst (λ m. KeyForm (negsuc m)) (ground arith) least
]

-- All keys have 21 bytes.
KeyForm-length : {n : ℤ} → KeyForm n → length (int_key n) ≡ 21
KeyForm-length (plain n h) = ap length (int_key-pos n) ∙ ap suc (length-places digit 20 n [])
KeyForm-length least =
    ap length int_key-least
    ∙ ap (λ k. suc (suc k)) (length-places flipped 19 9223372036854775808 [])
KeyForm-length (below_zero n h) =
    ap length (int_key-negsuc n h) ∙ ap suc (length-places flipped 20 (suc n) [])

pub length-int_key : (n : ℤ) → IsInt64 n → length (int_key n) ≡ 21
length-int_key n h = KeyForm-length (key_form n h)

KeyForm-bytes : {n : ℤ} → KeyForm n → All IsByte (int_key n)
KeyForm-bytes (plain n h) =
    subst (All IsByte) (sym (int_key-pos n))
      (omega arith, All-places digit IsByte (λ i h. omega arith) 20 n [] tt)
KeyForm-bytes least = subst (All IsByte) (sym int_key-least) (
  omega arith,
  (omega arith, All-places flipped IsByte (λ i h. omega arith) 19 9223372036854775808 [] tt),
)
KeyForm-bytes (below_zero n h) =
    subst (All IsByte) (sym (int_key-negsuc n h))
      (omega arith, All-places flipped IsByte (λ i h. omega arith) 20 (suc n) [] tt)

pub int_key-bytes : (n : ℤ) → IsInt64 n → All IsByte (int_key n)
int_key-bytes n h = KeyForm-bytes (key_form n h)

-- A text that begins with a minus sign comes before one of digits.
minus_first : (x s : Text) → All (λ c. 45 < c) s → 0 < length s → text_lt (45 ∷ x) s ≡ true
unfolding text_lt
minus_first x [] h k = absurd (omega arith)
minus_first x (c ∷ s) h k = ground (arith, h.0)

same_order : (s t u v : Text) → s ≡ u → t ≡ v → text_lt u v ≡ true → text_lt s t ≡ true
same_order s t u v p q h = cc

KeyForm-mono : {a b : ℤ} → KeyForm a → KeyForm b → a <ℤ b → text_lt (int_key a) (int_key b) ≡ true
unfolding text_lt
KeyForm-mono (plain a p) (plain b q) h =
    same_order _ _ _ _ (int_key-pos a) (int_key-pos b)
      (places_mono digit (λ i j l m. omega arith) 20 a b [] [] (omega arith) (omega arith))
KeyForm-mono least (plain b q) h = same_order _ _ _ _ int_key-least (int_key-pos b) refl
KeyForm-mono (below_zero a p) (plain b q) h =
    same_order _ _ _ _ (int_key-negsuc a p) (int_key-pos b) refl
KeyForm-mono least (below_zero b q) h = same_order _ _ _ _ int_key-least (int_key-negsuc b q) (
    minus_first _ (places flipped 20 (suc b) [])
      (All-places flipped (λ c. 45 < c) (λ i l. omega arith) 20 (suc b) [] tt)
      (omega (arith, length-places flipped 20 (suc b) [])))
KeyForm-mono (below_zero a p) (below_zero b q) h =
    same_order _ _ _ _ (int_key-negsuc a p) (int_key-negsuc b q) (
      places_anti flipped (λ i j l m. omega arith) 20 (suc b) (suc a) [] [] (omega arith)
        (omega arith))
KeyForm-mono least least h = absurd (omega arith)
KeyForm-mono (plain a p) least h = absurd (omega arith)
KeyForm-mono (plain a p) (below_zero b q) h = absurd (omega arith)
KeyForm-mono (below_zero a p) least h = absurd (omega arith)

-- The order of the keys of int64 values is the order of the values.
pub int_key_mono :
    (a b : ℤ) → IsInt64 a → IsInt64 b → a <ℤ b → text_lt (int_key a) (int_key b) ≡ true
int_key_mono a b ha hb h = KeyForm-mono (key_form a ha) (key_form b hb) h
