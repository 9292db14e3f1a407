-- ===== src/Prelude/Sort.antt =====
-- `slices.SortFunc`, as an insertion sort by a strict test, with the laws that any sort has.
-- The library's sort may leave equal elements in any order; this one keeps their order.
use Prim.Native.Nat.{suc}
use mathlib.Core.Path.{◌≡◌, refl}
use mathlib.Core.Logic.{inl, inr}
use mathlib.Core.Bool.{Bool, true, false}
use mathlib.Core.List.{List, [], ◌∷◌}
use native.Mathlib.Omega.{arith}
use capillaries.Prelude.Tests.{if◌then◌else◌, Bool-cases, if_ind}
use capillaries.Prelude.Lists.{All, All-map, length, count_if}

-- A test that orders its arguments up to ties.
pub record IsStrictWeak {ℓ} {A : Type ℓ} (less : A → A → Bool) : Type ℓ where
  pub asymm : (a b : A) → less a b ≡ true → less b a ≡ false
  pub ge_trans : (a b c : A) → less b a ≡ false → less c b ≡ false → less c a ≡ false

module _ {ℓ} {A : Type ℓ} (less : A → A → Bool) where
  -- No element is before one that stands to its left.
  abbrev pub IsSorted : List A → Type 0
  IsSorted [] = Unit
  IsSorted (x ∷ xs) = All (λ y. less y x ≡ false) xs × IsSorted xs

  sorted_insert : A → List A → List A
  sorted_insert x [] = x ∷ []
  sorted_insert x (y ∷ ys) =
      let rest = sorted_insert x ys in if less y x then y ∷ rest else x ∷ y ∷ ys

  unfoldable pub sort_func : List A → List A
  unfolding sorted_insert
  sort_func [] = []
  sort_func (x ∷ xs) = sorted_insert x (sort_func xs)

  count_if-sorted_insert :
      (p : A → Bool) (x : A) (ys : List A) → count_if p (sorted_insert x ys) ≡ count_if p (x ∷ ys)
  unfolding sorted_insert
  count_if-sorted_insert p x [] = refl
  count_if-sorted_insert p x (y ∷ ys) = ground (arith, count_if-sorted_insert p x ys)

  -- Sorting keeps how many elements pass any test, so it neither loses nor invents one.
  pub count_if-sort_func : (p : A → Bool) (l : List A) → count_if p (sort_func l) ≡ count_if p l
  unfolding sort_func
  count_if-sort_func p [] = refl
  count_if-sort_func p (x ∷ xs) =
      ground (arith, count_if-sorted_insert p x (sort_func xs), count_if-sort_func p xs)

  length-sorted_insert : (x : A) (ys : List A) → length (sorted_insert x ys) ≡ suc (length ys)
  unfolding sorted_insert
  length-sorted_insert x [] = refl
  length-sorted_insert x (y ∷ ys) = ground (arith, length-sorted_insert x ys)

  pub length-sort_func : (l : List A) → length (sort_func l) ≡ length l
  unfolding sort_func
  length-sort_func [] = refl
  length-sort_func (x ∷ xs) =
      omega (arith, length-sorted_insert x (sort_func xs), length-sort_func xs)

  All-sorted_insert {κ} :
      (P : A → Type κ) (x : A) (ys : List A) → P x → All P ys → All P (sorted_insert x ys)
  unfolding sorted_insert
  All-sorted_insert P x [] hx h = (hx, tt)
  All-sorted_insert P x (y ∷ ys) hx h = elim (Bool-cases (less y x)) [
    | inl e ↦ rw e (h.0, All-sorted_insert P x ys hx h.1)
    | inr e ↦ rw e (hx, h)
  ]

  pub All-sort_func {κ} : (P : A → Type κ) (l : List A) → All P l → All P (sort_func l)
  unfolding sort_func
  All-sort_func P [] h = tt
  All-sort_func P (x ∷ xs) h = All-sorted_insert P x (sort_func xs) h.0 (All-sort_func P xs h.1)

  All-of_sorted_insert {κ} :
      (P : A → Type κ) (x : A) (ys : List A) → All P (sorted_insert x ys) → P x × All P ys
  unfolding sorted_insert
  All-of_sorted_insert P x [] h = h
  All-of_sorted_insert P x (y ∷ ys) h =
      if_ind (λ l. All P l → P x × (P y × All P ys)) (less y x) (y ∷ sorted_insert x ys)
        (x ∷ y ∷ ys) (λ _ k. let rest = All-of_sorted_insert P x ys k.1 in (rest.0, (k.0, rest.1)))
        (λ _ k. k) h

  pub All-of_sort_func {κ} : (P : A → Type κ) (l : List A) → All P (sort_func l) → All P l
  unfolding sort_func
  All-of_sort_func P [] h = tt
  All-of_sort_func P (x ∷ xs) h =
      let both = All-of_sorted_insert P x (sort_func xs) h in (both.0, All-of_sort_func P xs both.1)

  module _ (w : IsStrictWeak less) where
    sorted_insert-IsSorted : (x : A) (ys : List A) → IsSorted ys → IsSorted (sorted_insert x ys)
    unfolding sorted_insert
    sorted_insert-IsSorted x [] s = (tt, tt)
    sorted_insert-IsSorted x (y ∷ ys) s = elim (Bool-cases (less y x)) [
      | inl e ↦ rw e (
        All-sorted_insert (λ z. less z y ≡ false) x ys (w.asymm y x e) s.0,
        sorted_insert-IsSorted x ys s.1,
      )
      | inr e ↦ rw e (
        (
          e,
          All-map (λ z. less z y ≡ false) (λ z. less z x ≡ false) (λ z h. w.ge_trans x y z e h) ys
              s.0,
        ),
        s,
      )
    ]

    pub sort_func-IsSorted : (l : List A) → IsSorted (sort_func l)
    unfolding sort_func
    sort_func-IsSorted [] = tt
    sort_func-IsSorted (x ∷ xs) = sorted_insert-IsSorted x (sort_func xs) (sort_func-IsSorted xs)
