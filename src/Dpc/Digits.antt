-- ===== src/Dpc/Digits.antt =====
-- The order of texts that write numbers with a fixed count of digits, for pkg/sc/key.go.
use capillaries.Prelude.{
  ℕ, zero, suc, ◌+◌, ◌-◌, ◌/◌, ◌%◌, ◌^◌, ◌<◌, ◌≡◌, refl, ◌∙◌, ap, true, [], ◌∷◌, ◌++◌, map, All,
  length, ltb, ◌==◌, arith, Bool-cases, inl, inr,
}
use capillaries.Prelude.Text.{Text, text_lt}
use capillaries.Dpc.Key.{padded_digits, flip_digit, hex_digit, descending_key}

-- The last digits of a number, each written by a function, in front of a text.
unfoldable pub places : (ℕ → ℕ) → ℕ → ℕ → Text → Text
places d zero n s = s
places d (suc w) n s = places d w (n / 10) (d (n % 10) ∷ s)

module _ (d : ℕ → ℕ) where
  text_lt-places : (w n : ℕ) (s t : Text) → text_lt (places d w n s) (places d w n t) ≡ text_lt s t
  unfolding places text_lt
  text_lt-places zero n s t = refl
  text_lt-places (suc w) n s t =
      ground (arith, text_lt-places w (n / 10) (d (n % 10) ∷ s) (d (n % 10) ∷ t))

  pub length-places : (w n : ℕ) (s : Text) → length (places d w n s) ≡ w + length s
  unfolding places
  length-places zero n s = omega arith
  length-places (suc w) n s = omega (arith, length-places w (n / 10) (d (n % 10) ∷ s))

  pub All-places :
      (P : ℕ → Type 0)
      → ((i : ℕ) → i < 10 → P (d i))
      → (w n : ℕ) (s : Text) → All P s
      → All P (places d w n s)
  unfolding places
  All-places P p zero n s h = h
  All-places P p (suc w) n s h =
      All-places P p w (n / 10) (d (n % 10) ∷ s) (p (n % 10) (omega arith), h)

  -- Greater digits for greater numbers.
  pub places_mono :
      ((i j : ℕ) → i < j → j < 10 → d i < d j)
      → (w a b : ℕ) (s t : Text) → a < b
      → b < 10 ^ w
      → text_lt (places d w a s) (places d w b t) ≡ true
  unfolding places text_lt
  places_mono up zero a b s t h k = absurd (omega arith)
  places_mono up (suc w) a b s t h k = elim (Bool-cases (ltb (a / 10) (b / 10))) [
    | inl q ↦ places_mono up w (a / 10) (b / 10) _ _ (ground arith) (omega arith)
    | inr q ↦
        let same : a / 10 ≡ b / 10 = ground arith in
        let last : text_lt (d (a % 10) ∷ s) (d (b % 10) ∷ t) ≡ true =
          ground (arith, up (a % 10) (b % 10)) in
        cc (same, last, text_lt-places w (b / 10) (d (a % 10) ∷ s) (d (b % 10) ∷ t))
  ]

  -- Smaller digits for greater numbers.
  pub places_anti :
      ((i j : ℕ) → i < j → j < 10 → d j < d i)
      → (w a b : ℕ) (s t : Text) → a < b
      → b < 10 ^ w
      → text_lt (places d w b s) (places d w a t) ≡ true
  unfolding places text_lt
  places_anti down zero a b s t h k = absurd (omega arith)
  places_anti down (suc w) a b s t h k = elim (Bool-cases (ltb (a / 10) (b / 10))) [
    | inl q ↦ places_anti down w (a / 10) (b / 10) _ _ (ground arith) (omega arith)
    | inr q ↦
        let same : a / 10 ≡ b / 10 = ground arith in
        let last : text_lt (d (b % 10) ∷ s) (d (a % 10) ∷ t) ≡ true =
          ground (arith, down (a % 10) (b % 10)) in
        cc (same, last, text_lt-places w (b / 10) (d (b % 10) ∷ s) (d (a % 10) ∷ t))
  ]

abbrev pub digit : ℕ → ℕ
digit i = 48 + i

abbrev pub flipped : ℕ → ℕ
flipped i = 57 - i

pub padded_digits-places : (w n : ℕ) (s : Text) → padded_digits w n s ≡ places digit w n s
unfolding padded_digits places
padded_digits-places zero n s = refl
padded_digits-places (suc w) n s = padded_digits-places w (n / 10) ((48 + n % 10) ∷ s)

pub map-places :
    (w n : ℕ) (s : Text)
    → map flip_digit (padded_digits w n s) ≡ places flipped w n (map flip_digit s)
unfolding padded_digits places flip_digit
map-places zero n s = refl
map-places (suc w) n s =
    map-places w (n / 10) ((48 + n % 10) ∷ s)
    ∙ ap (λ c. places flipped w (n / 10) (c ∷ map flip_digit s)) (ground arith)

-- Of texts of one length the order does not depend on what follows.
pub text_lt-append :
    (s t x y : Text) → length s ≡ length t → text_lt s t ≡ true → text_lt (s ++ x) (t ++ y) ≡ true
unfolding text_lt
text_lt-append [] [] x y l h = cc
text_lt-append [] (b ∷ t) x y l h = absurd (omega arith)
text_lt-append (a ∷ s) [] x y l h = absurd (omega arith)
text_lt-append (a ∷ s) (b ∷ t) x y l h = ground (arith, text_lt-append s t x y)

pub text_lt-same : (s x y : Text) → text_lt (s ++ x) (s ++ y) ≡ text_lt x y
unfolding text_lt
text_lt-same [] x y = refl
text_lt-same (a ∷ s) x y = ground (arith, text_lt-same s x y)

abbrev pub IsByte : ℕ → Type 0
IsByte c = c < 256

pub length-descending_key : (s : Text) → length (descending_key s) ≡ length s + length s
unfolding descending_key
length-descending_key [] = refl
length-descending_key (c ∷ s) = omega (arith, length-descending_key s)

hex_digit_mono : (i j : ℕ) → i < j → j < 16 → hex_digit i < hex_digit j
unfolding hex_digit
hex_digit_mono i j h k = ground arith

hex_pair_anti :
    (a b : ℕ) (s t : Text)
    → a < b
    → b < 256
    → text_lt
        (hex_digit ((255 - b) / 16) ∷ hex_digit ((255 - b) % 16) ∷ s)
        (hex_digit ((255 - a) / 16) ∷ hex_digit ((255 - a) % 16) ∷ t)
      ≡ true
unfolding text_lt
hex_pair_anti a b s t h k = elim (Bool-cases (ltb ((255 - b) / 16) ((255 - a) / 16))) [
  | inl q ↦
      let first = hex_digit_mono ((255 - b) / 16) ((255 - a) / 16) (ground arith) (omega arith) in
      ground (arith, first)
  | inr q ↦
      let same : (255 - b) / 16 ≡ (255 - a) / 16 = ground arith in
      let second = hex_digit_mono ((255 - b) % 16) ((255 - a) % 16) (omega arith) (omega arith) in
      ground (arith, same, second)
]

-- The complement turns the order of texts of one length round.
pub descending_key_anti :
    (s t : Text)
    → length s ≡ length t
    → All IsByte s
    → All IsByte t
    → text_lt s t ≡ true
    → text_lt (descending_key t) (descending_key s) ≡ true
unfolding descending_key text_lt
descending_key_anti [] [] l hs ht h = cc
descending_key_anti [] (b ∷ t) l hs ht h = absurd (omega arith)
descending_key_anti (a ∷ s) [] l hs ht h = absurd (omega arith)
descending_key_anti (a ∷ s) (b ∷ t) l hs ht h = elim (Bool-cases (a == b)) [
  | inl e ↦ ground (arith, descending_key_anti s t (omega arith) hs.1 ht.1)
  | inr e ↦ hex_pair_anti a b (descending_key t) (descending_key s) (ground arith) ht.0
]
