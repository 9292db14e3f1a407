-- ===== src/Eval/Bounds.antt =====
-- Bounds of exact sums and of their quotients, for the average of pkg/eval/agg.go.
use native.Mathlib.Nat.{le-div_iff_mul-le, div-lt_iff_lt-mul, div-le_of_le-mul}
use capillaries.Prelude.{◌≡◌, List, [], ◌∷◌, ◌+◌, ◌*◌, ◌≤◌, ℕ, suc, arith, All, length}
use capillaries.Prelude.Int.{ℤ, pos, negsuc, pos_part, neg_part, ◌≤ℤ◌, ◌+ℤ◌}
use capillaries.Eval.Agg.{div_count}

-- `lo` times `k` is at most `x`, and `x` is at most `hi` times `k`.
abbrev pub IsAbove : ℤ → ℕ → ℤ → Type 0
IsAbove lo k x = pos_part lo * k + neg_part x ≤ pos_part x + neg_part lo * k

abbrev pub IsBelow : ℤ → ℕ → ℤ → Type 0
IsBelow hi k x = pos_part x + neg_part hi * k ≤ pos_part hi * k + neg_part x

-- The parts of a sum differ by what the parts of its terms differ by.
parts-add :
    (a b : ℤ)
    → pos_part (a +ℤ b) + (neg_part a + neg_part b) ≡ pos_part a + pos_part b + neg_part (a +ℤ b)
unfolding ◌+ℤ◌
parts-add a b = ground arith

IsAbove-add : (lo : ℤ) (k : ℕ) (x v : ℤ) → IsAbove lo k x → lo ≤ℤ v → IsAbove lo (k + 1) (x +ℤ v)
IsAbove-add lo k x v h l = grind (arith, parts-add x v)

IsBelow-add : (hi : ℤ) (k : ℕ) (x v : ℤ) → IsBelow hi k x → v ≤ℤ hi → IsBelow hi (k + 1) (x +ℤ v)
IsBelow-add hi k x v h l = grind (arith, parts-add x v)

pub IsAbove-div_count :
    (lo : ℤ) (k : ℕ) (x : ℤ) → 1 ≤ k → IsAbove lo k x → lo ≤ℤ div_count x (pos k)
unfolding div_count
IsAbove-div_count (pos a) k (pos n) hk h =
    omega (arith, (le-div_iff_mul-le {k = k} {x = a} {y = n} hk).1 (omega arith))
IsAbove-div_count (pos a) k (negsuc n) hk h = absurd (omega arith)
IsAbove-div_count (negsuc a) k (pos n) hk h = omega arith
IsAbove-div_count (negsuc a) k (negsuc n) hk h =
    omega (arith, (div-lt_iff_lt-mul {k = k} {x = n} {y = suc a} hk).1 (omega arith))

pub IsBelow-div_count :
    (hi : ℤ) (k : ℕ) (x : ℤ) → 1 ≤ k → IsBelow hi k x → div_count x (pos k) ≤ℤ hi
unfolding div_count
IsBelow-div_count (pos b) k (pos n) hk h =
    omega (arith, div-le_of_le-mul k {m = n} {n = b} (grind arith))
IsBelow-div_count (pos b) k (negsuc n) hk h = omega arith
IsBelow-div_count (negsuc b) k (pos n) hk h = absurd (grind arith)
IsBelow-div_count (negsuc b) k (negsuc n) hk h =
    omega (arith, (le-div_iff_mul-le {k = k} {x = b} {y = n} hk).1 (grind arith))

abbrev pub sum_from : ℤ → List ℤ → ℤ
sum_from s [] = s
sum_from s (v ∷ vs) = sum_from (s +ℤ v) vs

pub count_next : (k n : ℕ) → k + suc n ≡ k + 1 + n
count_next k n = omega arith

pub sum_from-IsAbove :
    (lo : ℤ) (k : ℕ) (x : ℤ) (vs : List ℤ)
    → IsAbove lo k x
    → All (λ v. lo ≤ℤ v) vs
    → IsAbove lo (k + length vs) (sum_from x vs)
sum_from-IsAbove lo k x [] h a = omega arith
sum_from-IsAbove lo k x (v ∷ vs) h a =
    rw (count_next k (length vs))
      (sum_from-IsAbove lo (k + 1) (x +ℤ v) vs (IsAbove-add lo k x v h a.0) a.1)

pub sum_from-IsBelow :
    (hi : ℤ) (k : ℕ) (x : ℤ) (vs : List ℤ)
    → IsBelow hi k x
    → All (λ v. v ≤ℤ hi) vs
    → IsBelow hi (k + length vs) (sum_from x vs)
sum_from-IsBelow hi k x [] h a = omega arith
sum_from-IsBelow hi k x (v ∷ vs) h a =
    rw (count_next k (length vs))
      (sum_from-IsBelow hi (k + 1) (x +ℤ v) vs (IsBelow-add hi k x v h a.0) a.1)

pub ≤ℤ_trans : (a b c : ℤ) → a ≤ℤ b → b ≤ℤ c → a ≤ℤ c
≤ℤ_trans a b c h g = omega arith

pub zero_plus : (n : ℕ) → 0 + n ≡ n
zero_plus n = omega arith
