-- ===== src/Broker/Purge.antt =====
-- What `Delete` of pkg/capimq/message_broker.go removes, from the queue and from the claimed ones.
use capillaries.Prelude.{
  ℕ, zero, suc, ◌+◌, ◌/◌, ◌-◌, ◌≤◌, ◌≡◌, refl, true, not, Option, none, some, List, [], ◌∷◌, length,
  filter, get_elem?, get_elem?-none, get_elem?-some, All-get_elem?, All-remove_at, remove_at, All,
  if◌then◌else◌, Bool-cases, inl, inr, ◌∙◌, arith,
}
use capillaries.Prelude.Text.{Text, text_eq}
use capillaries.Broker.Message.{Message, Broker, q_heap}
use capillaries.Broker.Views.{in_groups, purge, delete_loop, delete_queued}
use capillaries.Broker.Loop.{delete_loop_rule}

abbrev others : Text → List Message → List Message
others prefix q = filter (λ m. not (in_groups prefix m)) q

length-remove_at :
    (i : ℕ) (q : List Message) (m : Message)
    → get_elem? q i ≡ some m
    → suc (length (remove_at i q)) ≡ length q
length-remove_at i [] m h = cc
length-remove_at zero (x ∷ q) m h = refl
length-remove_at (suc i) (x ∷ q) m h = omega (arith, length-remove_at i q m h)

others-remove_at :
    (prefix : Text) (i : ℕ) (q : List Message) (m : Message)
    → get_elem? q i ≡ some m
    → in_groups prefix m ≡ true
    → others prefix (remove_at i q) ≡ others prefix q
others-remove_at prefix i [] m h t = refl
others-remove_at prefix zero (x ∷ q) m h t = ground arith
others-remove_at prefix (suc i) (x ∷ q) m h t = ground (arith, others-remove_at prefix i q m h t)

-- What the rounds keep: the messages of other groups, and the sum of what is left and removed.
record Keeps (prefix : Text) (q₀ : List Message) (q : List Message) (n : ℕ) : Type 0 where
  kept : others prefix q ≡ others prefix q₀
  sum : length q + n ≡ length q₀

Keeps-round :
    (prefix : Text) (q₀ : List Message) (i : ℕ) (q : List Message) (n : ℕ) (m : Message)
    → get_elem? q i ≡ some m
    → Keeps prefix q₀ q n
    → Keeps prefix q₀
        (if in_groups prefix m then remove_at i q else q)
        (if in_groups prefix m then n + 1 else n)
Keeps-round prefix q₀ i q n m e h = elim (Bool-cases (in_groups prefix m)) [
  | inl t ↦ rw t (record {
    kept = others-remove_at prefix i q m e t ∙ h.kept;
    sum = omega (arith, length-remove_at i q m e, h.sum);
  })
  | inr f ↦ rw f h
]

-- A purge of the queue never touches a message of other groups, whose order stays, and reports
-- as many messages as it has removed.
pub purge-keeps_others :
    (prefix : Text) (b : Broker)
    → let (after, n) = purge q_heap prefix b in
      (filter (λ m. not (in_groups prefix m)) after.q ≡ filter (λ m. not (in_groups prefix m)) b.q)
      × (length after.q + n ≡ length b.q)
      × (after.wip ≡ b.wip)
unfolding purge delete_queued
purge-keeps_others prefix b =
    let end =
      delete_loop_rule prefix (λ i q n. Keeps prefix b.q q n) (Keeps-round prefix b.q) (length b.q)
        0 b.q 0 (record { kept = refl; sum = omega arith }) in
    (end.1.kept, end.1.sum, refl)

-- With every message in the purged groups, the rounds from index `i` on remove half of the rest.
delete_loop-half :
    (fuel : ℕ) (prefix : Text) (i : ℕ) (q : List Message) (n : ℕ)
    → length q ≤ fuel + i
    → All (λ m. in_groups prefix m ≡ true) q
    → (delete_loop fuel prefix i q n).1 ≡ n + (length q - i + 1) / 2
unfolding delete_loop
delete_loop-half zero prefix i q n f h = omega arith
delete_loop-half (suc fuel) prefix i q n f h =
    go (get_elem? q i) refl (λ q' n' k g. delete_loop-half fuel prefix (suc i) q' n' k g)
  where
    rounds_left : Message → List Message × ℕ
    rounds_left m =
        delete_loop fuel prefix (suc i) (if in_groups prefix m then remove_at i q else q)
          (if in_groups prefix m then n + 1 else n)

    after : Option Message → List Message × ℕ
    after o = elim o [ none ↦ (q, n) | some m ↦ rounds_left m ]

    go :
        (o : Option Message)
        → get_elem? q i ≡ o
        → ((q' : List Message) (n' : ℕ)
            → length q' ≤ fuel + suc i
            → All (λ m. in_groups prefix m ≡ true) q'
            → (delete_loop fuel prefix (suc i) q' n').1 ≡ n' + (length q' - suc i + 1) / 2)
        → (after o).1 ≡ n + (length q - i + 1) / 2
    go none e ih = omega (arith, get_elem?-none q i e)
    go (some m) e ih =
        let t : in_groups prefix m ≡ true =
          All-get_elem? (λ m. in_groups prefix m ≡ true) i q m e h in
        let shorter = length-remove_at i q m e in
        rw t (
          omega (
            arith,
            get_elem?-some q i m e,
            shorter,
            ih (remove_at i q) (n + 1) (omega (arith, shorter))
                (All-remove_at (λ m. in_groups prefix m ≡ true) i q h),
          ))

-- A purge of the whole queue, with the empty prefix, removes only every other message: of `n`
-- queued messages `n / 2` stay.
pub purge_all-leaves_half :
    (b : Broker)
    → ((purge q_heap [] b).1 ≡ (length b.q + 1) / 2)
      × (length (purge q_heap [] b).0.q ≡ length b.q / 2)
unfolding purge delete_queued in_groups text_eq
purge_all-leaves_half b =
    let removed = delete_loop-half (length b.q) [] 0 b.q 0 (omega arith) (everything b.q) in
    (omega (arith, removed), omega (arith, removed, (purge-keeps_others [] b).1))
  where
    everything : (q : List Message) → All (λ m. in_groups [] m ≡ true) q
    everything [] = tt
    everything (m ∷ q) = (refl, everything q)
