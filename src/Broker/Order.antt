-- ===== src/Broker/Order.antt =====
-- The queue of the broker stays in delivery order, and a claim takes its first message.
use capillaries.Prelude.{
  ◌≡◌, refl, true, false, Option, none, List, [], ◌∷◌, ◌++◌, length, remove_at, All, All-map,
  All-remove_at, if_ind, map, ◌+◌, Bool-cases, inl, inr, suc, zero, ℕ, arith,
}
use capillaries.Prelude.Int.{ℤ, pos, int_lt}
use capillaries.Prelude.Text.{Text}
use capillaries.Prelude.Sort.{IsSorted, sort_func-IsSorted}
use capillaries.Broker.Message.{
  Message, Broker, deliver_earlier_than, sort_q, deliver_earlier_than-IsStrictWeak,
}
use capillaries.Broker.Ops.{claim_head, return_all, q_bulk, enqueued, BrokerError}
use capillaries.Broker.Views.{delete_loop, in_groups}
use capillaries.Broker.Loop.{delete_loop_rule}

abbrev pub InOrder : List Message → Type 0
InOrder q = IsSorted deliver_earlier_than q

pub sort_q-InOrder : (q : List Message) → InOrder (sort_q q)
unfolding sort_q
sort_q-InOrder q = sort_func-IsSorted deliver_earlier_than deliver_earlier_than-IsStrictWeak q

pub return_all-InOrder : (q msgs : List Message) → InOrder q → InOrder (return_all q msgs)
return_all-InOrder q [] h = h
return_all-InOrder q (m ∷ ms) h = sort_q-InOrder (q ++ m ∷ ms)

pub q_bulk-InOrder :
    (now : ℤ) (msgs : List Message) (b : Broker) → InOrder b.q → InOrder (q_bulk now msgs b).0.q
unfolding q_bulk sort_q
q_bulk-InOrder now msgs b h =
    if_ind (λ (r : Broker × Option BrokerError). InOrder r.0.q)
      (int_lt b.max_messages (pos (length msgs + length b.q))) _ _ (λ _. h)
      (λ _. sort_q-InOrder (b.q ++ map (enqueued now) msgs))

-- A message that is not before one that is postponed is postponed too.
later_too :
    (now : ℤ) (m y : Message)
    → int_lt now m.deliver_after ≡ true
    → deliver_earlier_than y m ≡ false
    → int_lt now y.deliver_after ≡ true
unfolding deliver_earlier_than
later_too now m y h k = ground arith

pub claim_head-none :
    (now : ℤ) (comment : Text) (b : Broker) (q : List Message)
    → InOrder q
    → (claim_head now comment b q).1 ≡ none
    → ((claim_head now comment b q).0 ≡ b) × All (λ m. int_lt now m.deliver_after ≡ true) q
unfolding claim_head
claim_head-none now comment b [] s h = (refl, tt)
claim_head-none now comment b (m ∷ rest) s h = elim (Bool-cases (int_lt now m.deliver_after)) [
  | inl e ↦ rw e (refl, (refl, All-map _ _ (λ y k. later_too now m y e k) rest s.0))
  | inr e ↦ absurd (ground arith)
]

InOrder-remove_at : (i : ℕ) (q : List Message) → InOrder q → InOrder (remove_at i q)
InOrder-remove_at i [] h = tt
InOrder-remove_at zero (x ∷ xs) h = h.1
InOrder-remove_at (suc i) (x ∷ xs) h =
    (All-remove_at (λ y. deliver_earlier_than y x ≡ false) i xs h.0, InOrder-remove_at i xs h.1)

pub delete_loop-InOrder :
    (fuel : ℕ) (prefix : Text) (i : ℕ) (q : List Message) (n : ℕ)
    → InOrder q
    → InOrder (delete_loop fuel prefix i q n).0
delete_loop-InOrder fuel prefix i q n h =
    (delete_loop_rule prefix (λ i q n. InOrder q)
      (λ i q n m e h.
        if_ind InOrder (in_groups prefix m) _ _ (λ _. InOrder-remove_at i q h) (λ _. h))
      fuel i q n h).1
