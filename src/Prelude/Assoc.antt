-- ===== src/Prelude/Assoc.antt =====
-- Go maps with string keys, as association lists. A read finds the first entry of a key; a write
-- removes the entries of its key first, so a map built by writes has one entry for a key.
use Prim.Native.Nat.{ℕ, ◌+◌, ◌≤◌}
use mathlib.Core.Path.{◌≡◌, refl, subst₂}
use mathlib.Core.Logic.{inl, inr}
use mathlib.Core.Option.{Option, none, some}
use mathlib.Core.List.{List, [], ◌∷◌}
use native.Mathlib.Omega.{arith}
use capillaries.Prelude.Tests.{if◌then◌else◌, Bool-cases}
use capillaries.Prelude.Lists.{All}
use capillaries.Prelude.Text.{Text, text_eq, text_eq_refl, eq_of_text_eq}

abbrev pub Assoc {ℓ} : Type ℓ → Type ℓ
Assoc V = List (Text × V)

module _ {ℓ} {V : Type ℓ} where
  unfoldable pub lookup : Text → Assoc V → Option V
  lookup k [] = none
  lookup k ((j, v) ∷ m) = if text_eq j k then some v else lookup k m

  -- `delete(m, k)`
  unfoldable pub delete : Text → Assoc V → Assoc V
  delete k [] = []
  delete k ((j, v) ∷ m) = let rest = delete k m in if text_eq j k then rest else (j, v) ∷ rest

  -- `m[k] = v`
  unfoldable pub put : Text → V → Assoc V → Assoc V
  unfolding delete
  put k v m = (k, v) ∷ delete k m

  -- The values, in the order of the list; Go's own order is unspecified.
  abbrev pub values : Assoc V → List V
  values [] = []
  values ((j, v) ∷ m) = v ∷ values m

  -- How many entries a key has.
  abbrev pub count_key : Text → Assoc V → ℕ
  count_key k [] = 0
  count_key k ((j, v) ∷ m) = let rest = count_key k m in if text_eq j k then rest + 1 else rest

  pub lookup-delete :
      (k j : Text) (m : Assoc V)
      → lookup j (delete k m) ≡ (if text_eq k j then none else lookup j m)
  unfolding lookup delete
  lookup-delete k j [] = ground arith
  lookup-delete k j ((i, v) ∷ m) = ground (
    arith,
    lookup-delete k j m,
    eq_of_text_eq i k,
    eq_of_text_eq i j,
    eq_of_text_eq k j,
    text_eq_refl j,
  )

  pub lookup-put :
      (k j : Text) (v : V) (m : Assoc V)
      → lookup j (put k v m) ≡ (if text_eq k j then some v else lookup j m)
  unfolding lookup put
  lookup-put k j v m = ground (arith, lookup-delete k j m)

  pub count_key-delete :
      (k j : Text) (m : Assoc V)
      → count_key j (delete k m) ≡ (if text_eq k j then 0 else count_key j m)
  unfolding delete
  count_key-delete k j [] = ground arith
  count_key-delete k j ((i, v) ∷ m) = ground (
    arith,
    count_key-delete k j m,
    eq_of_text_eq i k,
    eq_of_text_eq i j,
    eq_of_text_eq k j,
    text_eq_refl j,
  )

  pub count_key-put :
      (k j : Text) (v : V) (m : Assoc V)
      → count_key j (put k v m) ≡ (if text_eq k j then 1 else count_key j m)
  unfolding put
  count_key-put k j v m = ground (arith, count_key-delete k j m)

  -- A key is found exactly when it has an entry.
  pub count_key-eq_zero : (k : Text) (m : Assoc V) → lookup k m ≡ none → count_key k m ≡ 0
  unfolding lookup
  count_key-eq_zero k [] h = refl
  count_key-eq_zero k ((j, v) ∷ m) h = ground (arith, count_key-eq_zero k m)

  pub lookup-eq_none : (k : Text) (m : Assoc V) → count_key k m ≡ 0 → lookup k m ≡ none
  unfolding lookup
  lookup-eq_none k [] h = refl
  lookup-eq_none k ((j, v) ∷ m) h = ground (arith, lookup-eq_none k m)

  pub count_key-pos : (k : Text) (m : Assoc V) (v : V) → lookup k m ≡ some v → 1 ≤ count_key k m
  unfolding lookup
  count_key-pos k [] v h = cc
  count_key-pos k ((j, w) ∷ m) v h = ground (arith, count_key-pos k m v)

  pub All-delete {κ} :
      (P : Text × V → Type κ) (k : Text) (m : Assoc V) → All P m → All P (delete k m)
  unfolding delete
  All-delete P k [] h = tt
  All-delete P k ((j, v) ∷ m) h = elim (Bool-cases (text_eq j k)) [
    | inl e ↦ rw e (All-delete P k m h.1)
    | inr e ↦ rw e (h.0, All-delete P k m h.1)
  ]

  -- The entry that a read finds is one of the map's.
  pub All-lookup {κ} :
      (P : Text → V → Type κ) (k : Text) (m : Assoc V) (v : V)
      → All (λ e. P e.0 e.1) m
      → lookup k m ≡ some v
      → P k v
  unfolding lookup
  All-lookup P k [] v h e = cc
  All-lookup P k ((j, w) ∷ m) v h e = elim (Bool-cases (text_eq j k)) [
    | inl t ↦ subst₂ P (eq_of_text_eq j k t) (ground arith) h.0
    | inr f ↦ All-lookup P k m v h.1 (ground arith)
  ]
