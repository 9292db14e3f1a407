-- ===== src/Sc/Tiling.antt =====
-- The intervals of GetTokenIntervalsByNumberOfBatches of pkg/sc/script_node_def.go tile the tokens.
use mathlib.Core.Path.{subst}
use native.Mathlib.Nat.{mod-lt, div-add-mod, mul-div-le}
use capillaries.Prelude.{
  ℕ, zero, suc, ◌+◌, ◌-◌, ◌*◌, ◌/◌, ◌%◌, ◌≤◌, ◌<◌, ◌≡◌, refl, arith, Bool, false, not, ◌&&◌, ◌∷◌,
  count_if, ltb, if◌then◌else◌,
}
use capillaries.Prelude.Int.{
  ℤ, pos, negsuc, ◌+ℤ◌, ◌-ℤ◌, ◌≤ℤ◌, int_lt, wrap64, wrap64_of_fits, max_int64, min_int64,
}
use capillaries.Sc.Batches.{
  max_accepted_batches, token_interval_per_batch, intervals_loop, table_intervals,
}

abbrev pub contains : ℤ → ℤ × ℤ → Bool
contains t (l, r) = not (int_lt t l) && not (int_lt r t)

-- The `u`-th token, counted from the least one.
abbrev token : ℕ → ℤ
token u =
    if ltb u 9223372036854775808
    then negsuc (9223372036854775807 - u)
    else pos (u - 9223372036854775808)

-- There are tokens for `n` more steps.
abbrev Room : ℕ → ℕ → ℕ → Type 0
Room zero s u = u < 18446744073709551616
Room (suc n) s u = Room n s (u + s)

Room-lt : (n s u : ℕ) → Room n s u → u < 18446744073709551616
Room-lt zero s u h = h
Room-lt (suc n) s u h = omega (arith, Room-lt n s (u + s) h)

step_token :
    (s u : ℕ)
    → s < 9223372036854775808
    → u + s < 18446744073709551616
    → wrap64 (token u +ℤ pos s) ≡ token (u + s)
unfolding wrap64 ◌+ℤ◌
step_token s u hs h = ground arith

back_token : (u : ℕ) → suc u < 18446744073709551616 → wrap64 (token (suc u) -ℤ pos 1) ≡ token u
unfolding wrap64 ◌-ℤ◌
back_token u h = ground arith

next_token : (u : ℕ) → suc u < 18446744073709551616 → wrap64 (token u +ℤ pos 1) ≡ token (suc u)
unfolding wrap64 ◌+ℤ◌
next_token u h = ground arith

token-lt :
    (a b : ℕ)
    → a < 18446744073709551616
    → b < 18446744073709551616
    → int_lt (token a) (token b) ≡ ltb a b
token-lt a b ha hb = ground arith

max-lt : (a : ℕ) → a < 18446744073709551616 → int_lt max_int64 (token a) ≡ false
max-lt a h = ground arith

right_token :
    (s u : ℕ)
    → suc s < 9223372036854775808
    → u + suc s < 18446744073709551616
    → wrap64 (wrap64 (token u +ℤ pos (suc s)) -ℤ pos 1) ≡ token (u + s)
right_token s u hs h =
    let e : u + suc s ≡ suc (u + s) = omega arith in
    rw (step_token (suc s) u hs h, e) (back_token (u + s) (omega (arith, h)))

loop_step :
    (n s u : ℕ)
    → suc s < 9223372036854775808
    → u + suc s < 18446744073709551616
    → intervals_loop (suc (suc n)) (pos (suc s)) (token u)
      ≡ (token u, token (u + s)) ∷ intervals_loop (suc n) (pos (suc s)) (token (u + suc s))
unfolding intervals_loop
loop_step n s u hs h =
    let e : suc (u + s) ≡ u + suc s = omega arith in
    rw (right_token s u hs h, next_token (u + s) (omega (arith, h)), e) refl

count_if-intervals_loop :
    (n s u v : ℕ)
    → suc s < 9223372036854775808
    → Room n (suc s) u
    → v < 18446744073709551616
    → count_if (contains (token v)) (intervals_loop (suc n) (pos (suc s)) (token u))
      ≡ (if ltb v u then 0 else 1)
count_if-intervals_loop zero s u v hs hr hv =
    unfold intervals_loop in ground (arith, token-lt v u hv hr, max-lt v hv)
count_if-intervals_loop (suc n) s u v hs hr hv =
    let h = Room-lt n (suc s) (u + suc s) hr in
    rw (loop_step n s u hs h) (
      ground (
        arith,
        count_if-intervals_loop n s (u + suc s) v hs hr hv,
        token-lt v u hv (omega (arith, h)),
        token-lt (u + s) v (omega (arith, h)) hv,
      ))

Room-of_product : (n s u : ℕ) → u + n * s < 18446744073709551616 → Room n s u
Room-of_product zero s u h = omega arith
Room-of_product (suc n) s u h = Room-of_product n s (u + s) (omega arith)

-- The width of an interval, without the wrap-around.
abbrev width : ℕ → ℕ
width n = 9223372036854775807 / n + 9223372036854775808 / n

quotient-pos : (n q r : ℕ) → n * q + r ≡ 9223372036854775808 → r < n → n < 1000002 → zero < q
quotient-pos n zero r e hr hn = omega (arith, e)
quotient-pos n (suc q) r e hr hn = omega arith

width-pos : (k : ℕ) → k < 1000000 → zero < width (suc (suc k))
width-pos k h = omega (
  arith,
  quotient-pos (suc (suc k)) (9223372036854775808 / suc (suc k)) (9223372036854775808 % suc (suc k))
      (div-add-mod 9223372036854775808 (suc (suc k)))
      (mod-lt 9223372036854775808 {m = suc (suc k)} (omega arith)) (omega arith),
)

width_lt : (k : ℕ) → width (suc (suc k)) < 9223372036854775808
width_lt k = omega (
  arith,
  mul-div-le 9223372036854775807 (suc (suc k)),
  mul-div-le 9223372036854775808 (suc (suc k)),
)

product_lt :
    (k : ℕ) → zero < width (suc (suc k)) → zero + suc k * width (suc (suc k)) < 18446744073709551616
product_lt k h = omega (
  arith,
  h,
  mul-div-le 9223372036854775807 (suc (suc k)),
  mul-div-le 9223372036854775808 (suc (suc k)),
)

interval_is_width : (k : ℕ) → token_interval_per_batch (suc (suc k)) ≡ pos (width (suc (suc k)))
unfolding token_interval_per_batch
interval_is_width k =
    wrap64_of_fits (pos (width (suc (suc k)))) (omega arith) (omega (arith, width_lt k))

-- Every int64 is the token of its offset from the least one.
offset : ℤ → ℕ
offset (pos n) = n + 9223372036854775808
offset (negsuc n) = 9223372036854775807 - n

token-offset : (t : ℤ) → min_int64 ≤ℤ t → t ≤ℤ max_int64 → token (offset t) ≡ t
unfolding offset
token-offset (pos n) l h = ground arith
token-offset (negsuc n) l h = ground arith

offset_lt : (t : ℤ) → t ≤ℤ max_int64 → offset t < 18446744073709551616
unfolding offset
offset_lt (pos n) h = omega arith
offset_lt (negsuc n) h = omega arith

count_if-wide :
    (k w v : ℕ)
    → w < 9223372036854775808
    → zero < w
    → Room (suc k) w 0
    → v < 18446744073709551616
    → count_if (contains (token v)) (intervals_loop (suc (suc k)) (pos w) min_int64) ≡ 1
count_if-wide k zero v hw h0 hr hv = absurd (omega arith)
count_if-wide k (suc s) v hw h0 hr hv =
    ground (arith, count_if-intervals_loop (suc k) s 0 v hw hr hv)

-- For a number of batches from 1 up to the maximum of a table reader, every token, an int64, is in the interval of
-- exactly one batch.
pub token-in_one_batch :
    (n : ℕ) (t : ℤ)
    → zero < n
    → n ≤ max_accepted_batches
    → min_int64 ≤ℤ t
    → t ≤ℤ max_int64
    → count_if (contains t) (table_intervals n) ≡ 1
unfolding table_intervals
token-in_one_batch zero t h0 hn hl hr = absurd (omega arith)
token-in_one_batch (suc zero) t h0 hn hl hr = ground arith
token-in_one_batch (suc (suc k)) t h0 hn hl hr =
    let w = width (suc (suc k)) in
    let hw = width-pos k (omega arith) in
    let one =
      count_if-wide k w (offset t) (width_lt k) hw (Room-of_product (suc k) w 0 (product_lt k hw))
        (offset_lt t hr) in
    let here =
      subst (λ x. count_if (contains x) (intervals_loop (suc (suc k)) (pos w) min_int64) ≡ 1)
        (token-offset t hl hr) one in
    rw (interval_is_width k) (ground (arith, here))
