-- ===== src/Prelude/IntMap.antt =====
-- Go maps with int16 keys, as association lists with one entry for a key.
use mathlib.Core.Path.{◌≡◌, refl}
use mathlib.Core.Option.{Option, none, some}
use mathlib.Core.List.{List, [], ◌∷◌}
use native.Mathlib.Omega.{arith}
use capillaries.Prelude.Tests.{if◌then◌else◌}
use capillaries.Prelude.Int.{ℤ, int_eq}

abbrev pub IntMap : Type 0 → Type 0
IntMap V = List (ℤ × V)

module _ {V : Type 0} where
  unfoldable pub lookup : ℤ → IntMap V → Option V
  lookup k [] = none
  lookup k ((j, v) ∷ m) = if int_eq j k then some v else lookup k m

  -- `m[k] = v`
  unfoldable pub put : ℤ → V → IntMap V → IntMap V
  put k v [] = (k, v) ∷ []
  put k v ((j, w) ∷ m) = let rest = put k v m in if int_eq j k then (j, v) ∷ m else (j, w) ∷ rest

  pub lookup-put :
      (k j : ℤ) (v : V) (m : IntMap V)
      → lookup j (put k v m) ≡ (if int_eq k j then some v else lookup j m)
  unfolding lookup put
  lookup-put k j v [] = refl
  lookup-put k j v ((i, w) ∷ m) = ground (arith, lookup-put k j v m)
