-- ===== src/Broker/Loop.antt =====
-- A rule for the loop of `Delete` over the queue of pkg/capimq/message_broker.go.
use capillaries.Prelude.{
  ℕ, zero, suc, ◌+◌, ◌≡◌, refl, Option, none, some, List, get_elem?, remove_at, if◌then◌else◌,
}
use capillaries.Prelude.Text.{Text}
use capillaries.Broker.Message.{Message}
use capillaries.Broker.Views.{delete_loop, in_groups}

module _ {κ} (prefix : Text) (P : ℕ → List Message → ℕ → Type κ)
    (step : (i : ℕ) (q : List Message) (n : ℕ) (m : Message)
      → get_elem? q i ≡ some m
      → P i q n
      → P
          (suc i)
          (if in_groups prefix m then remove_at i q else q)
          (if in_groups prefix m then n + 1 else n)) where
  -- What each round keeps holds at the end, at some index.
  pub delete_loop_rule :
      (fuel i : ℕ) (q : List Message) (n : ℕ)
      → P i q n
      → (j : ℕ) × P j (delete_loop fuel prefix i q n).0 (delete_loop fuel prefix i q n).1
  unfolding delete_loop
  delete_loop_rule zero i q n h = (i, h)
  delete_loop_rule (suc fuel) i q n h = go (get_elem? q i) refl (λ m e.
      delete_loop_rule fuel (suc i) (if in_groups prefix m then remove_at i q else q)
        (if in_groups prefix m then n + 1 else n) (step i q n m e h))
    where
      rounds_left : Message → List Message × ℕ
      rounds_left m =
          delete_loop fuel prefix (suc i) (if in_groups prefix m then remove_at i q else q)
            (if in_groups prefix m then n + 1 else n)

      after : Option Message → List Message × ℕ
      after o = elim o [ none ↦ (q, n) | some m ↦ rounds_left m ]

      go :
          (o : Option Message)
          → get_elem? q i ≡ o
          → ((m : Message)
              → get_elem? q i ≡ some m
              → (j : ℕ) × P j (rounds_left m).0 (rounds_left m).1)
          → (j : ℕ) × P j (after o).0 (after o).1
      go none e rest = (i, h)
      go (some m) e rest = rest m e
