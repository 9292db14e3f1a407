-- ===== src/Broker/Run.antt =====
-- A history of calls of pkg/capimq/message_broker.go, in the order in which they take effect, and
-- what holds after every history.
use capillaries.Prelude.{
  ℕ, ◌+◌, ◌≤◌, ◌≡◌, refl, Bool, true, false, Option, none, some, List, [], ◌∷◌, length, count_if,
  filter, All, if_ind, arith,
}
use capillaries.Prelude.Int.{ℤ, pos, int_lt, wrap64, ◌-ℤ◌}
use capillaries.Prelude.Text.{Text, text_eq}
use capillaries.Prelude.Assoc.{Assoc, lookup, delete, put, All-delete, values}
use capillaries.Broker.Message.{Message, Broker, HeapType, q_heap, wip_heap, unknown_heap}
use capillaries.Broker.Ops.{
  return_dead, is_dead, delete_messages, q_bulk, claim, claim_head, ack, ack_found, heartbeat,
  heartbeat_found, set_heartbeat, return, return_found, BrokerError,
}
use capillaries.Broker.Views.{purge, delete_queued, delete_claimed, delete_ids, ids_in_groups}
use capillaries.Broker.Accounting.{
  has_id, occurs, IsKeyed, IsConsistent, accepted, occurs-return_dead, occurs-q_bulk, occurs-claim,
  occurs-ack, occurs-heartbeat, occurs-return,
}
use capillaries.Broker.Removal.{occurs-purge}

pub data Event : Type 0 where
  dead_returned : ℤ → ℤ → Event
  enqueue : ℤ → List Message → Event
  claim_one : ℤ → Text → Event
  acknowledge : Text → Event
  beat : Text → ℤ → Event
  give_back : ℤ → ℤ → Text → Event
  purged : HeapType → Text → Event

unfoldable pub step : Event → Broker → Broker
step (dead_returned now timeout) b = (return_dead now timeout b).0
step (enqueue now msgs) b = (q_bulk now msgs b).0
step (claim_one now comment) b = (claim now comment b).0
step (acknowledge id) b = (ack id b).0
step (beat id now) b = (heartbeat id now b).0
step (give_back now delay id) b = (return now delay id b).0
step (purged heap prefix) b = (purge heap prefix b).0

unfoldable pub run : List Event → Broker → Broker
unfolding step
run [] b = b
run (e ∷ es) b = run es (step e b)

-- The messages of a bulk have ids that are new to the broker and differ from one another.
abbrev pub IsFresh : Event → Broker → Type 0
IsFresh (enqueue now msgs) b = (k : Text) → occurs k b + count_if (has_id k) msgs ≤ 1
IsFresh _ b = Unit {0}

abbrev pub AllFresh : List Event → Broker → Type 0
AllFresh [] b = Unit
AllFresh (e ∷ es) b = IsFresh e b × AllFresh es (step e b)

-- Whether an event may take a message out for good.
abbrev pub may_remove : Text → Event → Bool
may_remove k (acknowledge id) = text_eq id k
may_remove k (purged _ _) = true
may_remove k _ = false

delete_messages-IsKeyed :
    (msgs : List Message) (wip : Assoc Message) → IsKeyed wip → IsKeyed (delete_messages msgs wip)
unfolding delete_messages
delete_messages-IsKeyed [] wip h = h
delete_messages-IsKeyed (m ∷ ms) wip h =
    delete_messages-IsKeyed ms (delete m.id wip) (All-delete (λ e. e.0 ≡ e.1.id) m.id wip h)

delete_ids-IsKeyed :
    (ids : List Text) (wip : Assoc Message) → IsKeyed wip → IsKeyed (delete_ids ids wip)
unfolding delete_ids
delete_ids-IsKeyed [] wip h = h
delete_ids-IsKeyed (id ∷ ids) wip h =
    delete_ids-IsKeyed ids (delete id wip) (All-delete (λ e. e.0 ≡ e.1.id) id wip h)

set_heartbeat-IsKeyed :
    (id : Text) (now : ℤ) (wip : Assoc Message) → IsKeyed wip → IsKeyed (set_heartbeat id now wip)
unfolding set_heartbeat
set_heartbeat-IsKeyed id now [] h = tt
set_heartbeat-IsKeyed id now ((k, m) ∷ wip) h =
    if_ind IsKeyed (text_eq k id) _ _ (λ _. h) (λ _. (h.0, set_heartbeat-IsKeyed id now wip h.1))

claim_head-IsKeyed :
    (now : ℤ) (comment : Text) (b : Broker) (q : List Message)
    → IsKeyed b.wip
    → IsKeyed (claim_head now comment b q).0.wip
unfolding claim_head put
claim_head-IsKeyed now comment b [] h = h
claim_head-IsKeyed now comment b (m ∷ rest) h =
    if_ind (λ (r : Broker × Option Message). IsKeyed r.0.wip) (int_lt now m.deliver_after) _ _
      (λ _. h) (λ _. (refl, All-delete (λ e. e.0 ≡ e.1.id) m.id b.wip h))

step-IsKeyed : (e : Event) (b : Broker) → IsKeyed b.wip → IsKeyed (step e b).wip
unfolding step return_dead q_bulk claim ack ack_found heartbeat heartbeat_found return return_found
    purge delete_queued delete_claimed
step-IsKeyed (dead_returned now timeout) b h =
    delete_messages-IsKeyed (filter (is_dead (wrap64 (now -ℤ timeout))) (values b.wip)) b.wip h
step-IsKeyed (enqueue now msgs) b h =
    if_ind (λ (r : Broker × Option BrokerError). IsKeyed r.0.wip)
      (int_lt b.max_messages (pos (length msgs + length b.q))) _ _ (λ _. h) (λ _. h)
step-IsKeyed (claim_one now comment) b h = claim_head-IsKeyed now comment b b.q h
step-IsKeyed (acknowledge id) b h = go (lookup id b.wip)
  where
    go : (o : Option Message) → IsKeyed (ack_found id b o).0.wip
    go none = h
    go (some m) = All-delete (λ e. e.0 ≡ e.1.id) id b.wip h
step-IsKeyed (beat id now) b h = go (lookup id b.wip)
  where
    go : (o : Option Message) → IsKeyed (heartbeat_found id now b o).0.wip
    go none = h
    go (some m) = set_heartbeat-IsKeyed id now b.wip h
step-IsKeyed (give_back now delay id) b h = go (lookup id b.wip)
  where
    go : (o : Option Message) → IsKeyed (return_found now delay id b o).0.wip
    go none = h
    go (some m) = All-delete (λ e. e.0 ≡ e.1.id) id b.wip h
step-IsKeyed (purged q_heap prefix) b h = h
step-IsKeyed (purged wip_heap prefix) b h = delete_ids-IsKeyed (ids_in_groups prefix b.wip) b.wip h
step-IsKeyed (purged unknown_heap prefix) b h = h

accepted-le : (o : Option BrokerError) (n : ℕ) → accepted o n ≤ n
accepted-le none n = omega arith
accepted-le (some e) n = omega arith

step-occurs-le :
    (e : Event) (b : Broker) (k : Text) → IsConsistent b → IsFresh e b → occurs k (step e b) ≤ 1
unfolding step
step-occurs-le (dead_returned now timeout) b k c f =
    omega (arith, occurs-return_dead now timeout b k c, c.unique k)
step-occurs-le (enqueue now msgs) b k c f = omega (
  arith,
  occurs-q_bulk now msgs b k,
  f k,
  accepted-le (q_bulk now msgs b).1 (count_if (has_id k) msgs),
)
step-occurs-le (claim_one now comment) b k c f =
    omega (arith, occurs-claim now comment b k c, c.unique k)
step-occurs-le (acknowledge id) b k c f = omega (arith, occurs-ack id b k c, c.unique k)
step-occurs-le (beat id now) b k c f = omega (arith, occurs-heartbeat id now b k, c.unique k)
step-occurs-le (give_back now delay id) b k c f =
    omega (arith, occurs-return now delay id b k c, c.unique k)
step-occurs-le (purged heap prefix) b k c f =
    omega (arith, occurs-purge heap prefix b k, c.unique k)

-- Every call keeps the broker consistent: claimed messages are filed under their ids, and no id
-- occurs twice, if the ids that come in are fresh.
pub step-IsConsistent :
    (e : Event) (b : Broker) → IsFresh e b → IsConsistent b → IsConsistent (step e b)
step-IsConsistent e b f c = record {
  keyed = step-IsKeyed e b c.keyed;
  unique = λ k. step-occurs-le e b k c f;
}

-- After every history of calls, with fresh ids coming in, no message occurs twice.
pub run-IsConsistent :
    (es : List Event) (b : Broker) → AllFresh es b → IsConsistent b → IsConsistent (run es b)
unfolding run
run-IsConsistent [] b f c = c
run-IsConsistent (e ∷ es) b f c = run-IsConsistent es (step e b) f.1 (step-IsConsistent e b f.0 c)

step-keeps :
    (e : Event) (b : Broker) (k : Text)
    → IsConsistent b
    → may_remove k e ≡ false
    → occurs k b ≤ occurs k (step e b)
unfolding step
step-keeps (dead_returned now timeout) b k c r = omega (arith, occurs-return_dead now timeout b k c)
step-keeps (enqueue now msgs) b k c r = omega (arith, occurs-q_bulk now msgs b k)
step-keeps (claim_one now comment) b k c r = omega (arith, occurs-claim now comment b k c)
step-keeps (acknowledge id) b k c r = ground (arith, occurs-ack id b k c)
step-keeps (beat id now) b k c r = omega (arith, occurs-heartbeat id now b k)
step-keeps (give_back now delay id) b k c r = omega (arith, occurs-return now delay id b k c)
step-keeps (purged _ _) b k c r = cc

-- A message in the broker is there, once, after every history in which it is not acknowledged and
-- nothing is purged, whatever is claimed, returned, given up for dead or added with fresh ids.
pub run-keeps_message :
    (es : List Event) (b : Broker) (k : Text)
    → IsConsistent b
    → AllFresh es b
    → All (λ e. may_remove k e ≡ false) es
    → occurs k b ≡ 1
    → occurs k (run es b) ≡ 1
unfolding run
run-keeps_message [] b k c f r h = h
run-keeps_message (e ∷ es) b k c f r h =
    run-keeps_message es (step e b) k (step-IsConsistent e b f.0 c) f.1 r.1
      (omega (arith, step-keeps e b k c r.0, step-occurs-le e b k c f.0))
