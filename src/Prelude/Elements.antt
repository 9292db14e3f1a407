-- ===== src/Prelude/Elements.antt =====
-- Lists: elements by index, replaced and mapped.
use Prim.Native.Nat.{ℕ, zero, suc}
use mathlib.Core.Path.{◌≡◌, refl, subst}
use mathlib.Core.Logic.{◌⊎◌, inl, inr}
use mathlib.Core.Bool.{Bool, true}
use mathlib.Core.Option.{some}
use mathlib.Core.List.{List, [], ◌∷◌, ◌++◌, map}
use native.Mathlib.Omega.{arith}
use capillaries.Prelude.Tests.{◌==◌, if◌then◌else◌}
use capillaries.Prelude.Lists.{Any, all, get_elem?, set_at, length}

module _ {ℓ} {A : Type ℓ} where
  pub get_elem?-set_at :
      (i j : ℕ) (y x : A) (xs : List A)
      → get_elem? xs i ≡ some x
      → get_elem? (set_at i y xs) j ≡ (if i == j then some y else get_elem? xs j)
  get_elem?-set_at i j y x [] h = cc
  get_elem?-set_at zero zero y x (z ∷ xs) h = refl
  get_elem?-set_at zero (suc j) y x (z ∷ xs) h = ground arith
  get_elem?-set_at (suc i) zero y x (z ∷ xs) h = ground arith
  get_elem?-set_at (suc i) (suc j) y x (z ∷ xs) h = ground (arith, get_elem?-set_at i j y x xs)

  pub set_at_same : (i : ℕ) (x : A) (xs : List A) → get_elem? xs i ≡ some x → set_at i x xs ≡ xs
  set_at_same i x [] h = refl
  set_at_same zero x (z ∷ xs) h = ground arith
  set_at_same (suc i) x (z ∷ xs) h = ground (arith, set_at_same i x xs)

  pub get_elem?-append_left :
      (xs : List A) (x y : A) (j : ℕ)
      → get_elem? xs j ≡ some y
      → get_elem? (xs ++ x ∷ []) j ≡ some y
  get_elem?-append_left [] x y j h = cc
  get_elem?-append_left (z ∷ xs) x y zero h = h
  get_elem?-append_left (z ∷ xs) x y (suc j) h = get_elem?-append_left xs x y j h

  pub get_elem?-append :
      (xs : List A) (x y : A) (j : ℕ)
      → get_elem? (xs ++ x ∷ []) j ≡ some y
      → (get_elem? xs j ≡ some y) ⊎ ((j ≡ length xs) × (x ≡ y))
  get_elem?-append [] x y zero h = inr (refl, ground arith)
  get_elem?-append [] x y (suc j) h = cc
  get_elem?-append (z ∷ xs) x y zero h = inl h
  get_elem?-append (z ∷ xs) x y (suc j) h = elim (get_elem?-append xs x y j h) [
    | inl e ↦ inl e
    | inr e ↦ inr (ground (arith, e), e.1)
  ]

module _ {ℓ κ} {A : Type ℓ} {B : Type κ} where
  pub get_elem?-map :
      (f : A → B) (xs : List A) (i : ℕ) (x : A)
      → get_elem? xs i ≡ some x
      → get_elem? (map f xs) i ≡ some (f x)
  get_elem?-map f [] i x h = cc
  get_elem?-map f (y ∷ xs) zero x h = ground arith
  get_elem?-map f (y ∷ xs) (suc i) x h = get_elem?-map f xs i x h

  pub map-set_at :
      (f : A → B) (i : ℕ) (x : A) (xs : List A) → map f (set_at i x xs) ≡ set_at i (f x) (map f xs)
  map-set_at f i x [] = refl
  map-set_at f zero x (y ∷ xs) = refl
  map-set_at f (suc i) x (y ∷ xs) = ground (arith, map-set_at f i x xs)

  pub map-append : (f : A → B) (xs ys : List A) → map f (xs ++ ys) ≡ map f xs ++ map f ys
  map-append f [] ys = refl
  map-append f (x ∷ xs) ys = ground (arith, map-append f xs ys)

module _ {A : Type 0} where
  -- A test of all elements is one of each.
  pub all-Any :
      (p : A → Bool) (xs : List A) (x : A) → all p xs ≡ true → Any (λ y. y ≡ x) xs → p x ≡ true
  all-Any p [] x h m = absurd m
  all-Any p (y ∷ xs) x h m = elim m [
    | inl e ↦ subst (λ z. p z ≡ true) e (ground arith)
    | inr later ↦ all-Any p xs x (ground arith) later
  ]
