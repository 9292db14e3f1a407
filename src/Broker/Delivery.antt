-- ===== src/Broker/Delivery.antt =====
-- The queue of pkg/capimq/message_broker.go is in delivery order after every history in which no
-- message without a group is returned.
use capillaries.Prelude.{
  ◌≡◌, refl, arith, Bool, true, not, Option, none, some, List, [], ◌∷◌, length, ◌==◌, if_ind,
}
use capillaries.Prelude.Int.{ℤ, int_lt}
use capillaries.Prelude.Text.{Text}
use capillaries.Prelude.Assoc.{lookup}
use capillaries.Broker.Message.{Message, Broker, q_heap, wip_heap, unknown_heap}
use capillaries.Broker.Ops.{
  return_dead, claim, claim_head, ack, ack_found, heartbeat, heartbeat_found, return, return_found,
  requeue,
}
use capillaries.Broker.Views.{purge, delete_queued, delete_claimed}
use capillaries.Broker.Order.{
  InOrder, sort_q-InOrder, return_all-InOrder, q_bulk-InOrder, delete_loop-InOrder,
}
use capillaries.Broker.Run.{
  Event, dead_returned, enqueue, claim_one, acknowledge, beat, give_back, purged, step, run,
}

abbrev has_group : Option Message → Bool
has_group none = true
has_group (some m) = not (length m.group == 0)

-- A message that is returned has a group.
abbrev pub returns_grouped : Event → Broker → Bool
returns_grouped (give_back now delay id) b = has_group (lookup id b.wip)
returns_grouped _ b = true

abbrev pub AllGrouped : List Event → Broker → Type 0
AllGrouped [] b = Unit
AllGrouped (e ∷ es) b = (returns_grouped e b ≡ true) × AllGrouped es (step e b)

claim_head-InOrder :
    (now : ℤ) (comment : Text) (b : Broker) (q : List Message)
    → b.q ≡ q
    → InOrder q
    → InOrder (claim_head now comment b q).0.q
unfolding claim_head
claim_head-InOrder now comment b [] e h = rw e tt
claim_head-InOrder now comment b (m ∷ rest) e h =
    if_ind (λ (r : Broker × Option Message). InOrder r.0.q) (int_lt now m.deliver_after) _ _
      (λ _. rw e h) (λ _. h.1)

return_found-InOrder :
    (now delay : ℤ) (id : Text) (b : Broker) (o : Option Message)
    → has_group o ≡ true
    → InOrder b.q
    → InOrder (return_found now delay id b o).0.q
unfolding return_found requeue
return_found-InOrder now delay id b none g h = h
return_found-InOrder now delay id b (some m) g h =
    if_ind InOrder (length m.group == 0) _ _ (λ e. absurd (ground arith)) (λ _. sort_q-InOrder _)

step-InOrder :
    (e : Event) (b : Broker) → returns_grouped e b ≡ true → InOrder b.q → InOrder (step e b).q
unfolding step return_dead claim ack ack_found heartbeat heartbeat_found return purge delete_queued
    delete_claimed
step-InOrder (dead_returned now timeout) b g h = return_all-InOrder b.q _ h
step-InOrder (enqueue now msgs) b g h = q_bulk-InOrder now msgs b h
step-InOrder (claim_one now comment) b g h = claim_head-InOrder now comment b b.q refl h
step-InOrder (acknowledge id) b g h = go (lookup id b.wip)
  where
    go : (o : Option Message) → InOrder (ack_found id b o).0.q
    go none = h
    go (some m) = h
step-InOrder (beat id now) b g h = go (lookup id b.wip)
  where
    go : (o : Option Message) → InOrder (heartbeat_found id now b o).0.q
    go none = h
    go (some m) = h
step-InOrder (give_back now delay id) b g h =
    return_found-InOrder now delay id b (lookup id b.wip) g h
step-InOrder (purged q_heap prefix) b g h = delete_loop-InOrder _ prefix _ b.q _ h
step-InOrder (purged wip_heap prefix) b g h = h
step-InOrder (purged unknown_heap prefix) b g h = h

-- From a queue in order, the queue is in order after every history of calls in which each message
-- that is returned has a group.
pub run-InOrder :
    (es : List Event) (b : Broker) → AllGrouped es b → InOrder b.q → InOrder (run es b).q
unfolding run
run-InOrder [] b g h = h
run-InOrder (e ∷ es) b g h = run-InOrder es (step e b) g.1 (step-InOrder e b g.0 h)
