-- ===== src/Prelude/Outcome.antt =====
-- Go's `(value, error)` results: a call that returns one of the two.
use mathlib.Core.Path.{◌≡◌, refl}

pub data Outcome {ℓ κ} (E : Type ℓ) (A : Type κ) : Type (ℓ ⊔ κ) where
  done : A → Outcome E A
  error : E → Outcome E A

module _ {ℓ κ μ} {E : Type ℓ} {A : Type κ} {B : Type μ} where
  -- `if err != nil { return err }`, then the rest.
  abbrev pub and_then : Outcome E A → (A → Outcome E B) → Outcome E B
  and_then (done a) next = next a
  and_then (error e) next = error e

  -- What was returned before a call whose result is known.
  pub and_then-eq_done :
      (o : Outcome E A) (next : A → Outcome E B) (b : B)
      → and_then o next ≡ done b
      → (a : A) × (o ≡ done a) × (next a ≡ done b)
  and_then-eq_done (done a) next b h = (a, refl, h)
  and_then-eq_done (error e) next b h = cc
