-- ===== src/Broker/Ops.antt =====
-- The operations of pkg/capimq/message_broker.go that move messages. `now` is the reading of the
-- clock (`time.Now().UnixMilli()`) that the call makes.
use capillaries.Prelude.{
  ℕ, ◌+◌, Bool, Option, none, some, List, [], ◌∷◌, ◌++◌, map, length, filter, ◌==◌, if◌then◌else◌,
}
use capillaries.Prelude.Int.{ℤ, pos, int_lt, wrap64, ◌+ℤ◌, ◌-ℤ◌}
use capillaries.Prelude.Text.{Text, text_eq}
use capillaries.Prelude.Assoc.{Assoc, lookup, delete, put, values}
use capillaries.Broker.Message.{Message, Broker, sort_q}

-- The errors, with what their texts report.
pub data BrokerError : Type 0 where
  max_messages_exceeded : ℤ → ℕ → ℕ → BrokerError
  cannot_ack : Text → BrokerError
  cannot_heartbeat : Text → BrokerError
  cannot_return : Text → BrokerError

-- A line of `ReturnDead`'s report: id, group and how long ago the message should have been heard of.
pub record DeadMessage : Type 0 where
  pub id : Text
  pub group : Text
  pub overstay : ℤ

-- `delete(mb.Wip, msg.Id)` for each message.
unfoldable pub delete_messages : List Message → Assoc Message → Assoc Message
unfolding delete
delete_messages [] wip = wip
delete_messages (m ∷ ms) wip = delete_messages ms (delete m.id wip)

abbrev pub is_dead : ℤ → Message → Bool
is_dead latest m = int_lt m.heartbeat latest

abbrev pub describe_dead : ℤ → Message → DeadMessage
describe_dead latest m = record {
  id = m.id;
  group = m.group;
  overstay = wrap64 (latest -ℤ m.heartbeat);
}

-- The queue after `append(mb.Q, msgs...)`; with no message to return it is not sorted again.
abbrev pub return_all : List Message → List Message → List Message
return_all q [] = q
return_all q (m ∷ ms) = sort_q (q ++ m ∷ ms)

unfoldable pub return_dead : ℤ → ℤ → Broker → Broker × List DeadMessage
unfolding delete_messages sort_q
return_dead now timeout b =
    let latest = wrap64 (now -ℤ timeout) in
    let msgs = filter (is_dead latest) (values b.wip) in
    (
      record b { q = return_all b.q msgs; wip = delete_messages msgs b.wip },
      map (describe_dead latest) msgs,
    )

abbrev pub enqueued : ℤ → Message → Message
enqueued now m = record m { ts = now; deliver_after = now; heartbeat = pos 0 }

unfoldable pub q_bulk : ℤ → List Message → Broker → Broker × Option BrokerError
unfolding sort_q
q_bulk now msgs b =
    if int_lt b.max_messages (pos (length msgs + length b.q))
    then (b, some (max_messages_exceeded b.max_messages (length b.q) (length msgs)))
    else (record b { q = sort_q (b.q ++ map (enqueued now) msgs) }, none)

abbrev pub claimed : ℤ → Text → Message → Message
claimed now comment m = record m { heartbeat = now; claim_comment = comment }

unfoldable pub claim_head : ℤ → Text → Broker → List Message → Broker × Option Message
unfolding put
claim_head now comment b [] = (b, none)
claim_head now comment b (m ∷ rest) = if int_lt now m.deliver_after then (b, none) else (
  record b { q = rest; wip = put m.id (claimed now comment m) b.wip },
  some (claimed now comment m),
)

unfoldable pub claim : ℤ → Text → Broker → Broker × Option Message
unfolding claim_head
claim now comment b = claim_head now comment b b.q

unfoldable pub ack_found : Text → Broker → Option Message → Broker × Option BrokerError
unfolding delete
ack_found id b none = (b, some (cannot_ack id))
ack_found id b (some m) = (record b { wip = delete id b.wip }, none)

unfoldable pub ack : Text → Broker → Broker × Option BrokerError
unfolding ack_found lookup
ack id b = ack_found id b (lookup id b.wip)

-- The message is changed through its pointer, in its place in the map.
unfoldable pub set_heartbeat : Text → ℤ → Assoc Message → Assoc Message
set_heartbeat id now [] = []
set_heartbeat id now ((k, m) ∷ wip) =
    (if text_eq k id
      then (k, record m { heartbeat = now }) ∷ wip
      else (k, m) ∷ set_heartbeat id now wip)

unfoldable pub heartbeat_found : Text → ℤ → Broker → Option Message → Broker × Option BrokerError
unfolding set_heartbeat
heartbeat_found id now b none = (b, some (cannot_heartbeat id))
heartbeat_found id now b (some m) = (record b { wip = set_heartbeat id now b.wip }, none)

unfoldable pub heartbeat : Text → ℤ → Broker → Broker × Option BrokerError
unfolding heartbeat_found lookup
heartbeat id now b = heartbeat_found id now b (lookup id b.wip)

-- `msg.DeliverAfter = newDeliverAfter` for the messages of a group.
abbrev pub postpone : Text → ℤ → Message → Message
postpone group at m = if text_eq m.group group then record m { deliver_after = at } else m

-- A message with an empty group is put at the end, and the queue is not sorted again.
unfoldable pub requeue : ℤ → Message → List Message → List Message
unfolding sort_q
requeue at m q =
    if length m.group == 0
    then q ++ record m { deliver_after = at } ∷ []
    else sort_q (map (postpone m.group at) (q ++ m ∷ []))

unfoldable pub return_found : ℤ → ℤ → Text → Broker → Option Message → Broker × Option BrokerError
unfolding delete requeue
return_found now delay id b none = (b, some (cannot_return id))
return_found now delay id b (some m) = (
  record b {
    q = requeue (wrap64 (now +ℤ delay)) (record m { claim_comment = [] }) b.q;
    wip = delete id b.wip;
  },
  none,
)

unfoldable pub return : ℤ → ℤ → Text → Broker → Broker × Option BrokerError
unfolding return_found lookup
return now delay id b = return_found now delay id b (lookup id b.wip)
