-- ===== src/Broker/Removal.antt =====
-- `Delete` of pkg/capimq/message_broker.go adds no message.
use capillaries.Prelude.{
  ℕ, zero, suc, ◌≤◌, List, [], ◌∷◌, length, remove_at, count_if, if_ind, arith,
}
use capillaries.Prelude.Text.{Text}
use capillaries.Prelude.Assoc.{Assoc, delete, count_key, count_key-delete}
use capillaries.Broker.Message.{Message, Broker, HeapType, q_heap, wip_heap, unknown_heap}
use capillaries.Broker.Views.{
  in_groups, purge, delete_queued, delete_claimed, delete_ids, ids_in_groups,
}
use capillaries.Broker.Loop.{delete_loop_rule}
use capillaries.Broker.Accounting.{has_id, occurs}

count_if-remove_at :
    (k : Text) (i : ℕ) (q : List Message)
    → count_if (has_id k) (remove_at i q) ≤ count_if (has_id k) q
count_if-remove_at k i [] = omega arith
count_if-remove_at k zero (x ∷ q) = ground arith
count_if-remove_at k (suc i) (x ∷ q) = ground (arith, count_if-remove_at k i q)

count_key-delete_ids :
    (k : Text) (ids : List Text) (wip : Assoc Message)
    → count_key k (delete_ids ids wip) ≤ count_key k wip
unfolding delete_ids
count_key-delete_ids k [] wip = omega arith
count_key-delete_ids k (id ∷ ids) wip =
    ground (arith, count_key-delete_ids k ids (delete id wip), count_key-delete id k wip)

pub occurs-purge :
    (heap : HeapType) (prefix : Text) (b : Broker) (k : Text)
    → occurs k (purge heap prefix b).0 ≤ occurs k b
unfolding purge delete_queued delete_claimed
occurs-purge q_heap prefix b k = omega (
  arith,
  (delete_loop_rule prefix (λ i q n. count_if (has_id k) q ≤ count_if (has_id k) b.q)
      (λ i q n m e h.
        if_ind (λ l. count_if (has_id k) l ≤ count_if (has_id k) b.q) (in_groups prefix m) _ _
          (λ _. omega (arith, count_if-remove_at k i q)) (λ _. h))
      (length b.q) 0 b.q 0 (omega arith)).1,
)
occurs-purge wip_heap prefix b k =
    omega (arith, count_key-delete_ids k (ids_in_groups prefix b.wip) b.wip)
occurs-purge unknown_heap prefix b k = omega arith
