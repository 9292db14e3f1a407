-- ===== src/Broker/Message.antt =====
-- The data of pkg/capimq/message_broker.go. Times are int64 milliseconds, strings are bytes.
-- A message is held by the queue or by the map of claimed messages, never by both through one
-- pointer, so messages are values.
use capillaries.Prelude.{Bool, true, false, not, List, [], if◌then◌else◌, arith}
use capillaries.Prelude.Int.{ℤ, int_eq, int_lt}
use capillaries.Prelude.Text.{Text, bytes, text_eq, text_lt, text_lt_asymm, text_ge_trans}
use capillaries.Prelude.Sort.{IsStrictWeak, sort_func}
use capillaries.Prelude.Assoc.{Assoc}

pub record Message : Type 0 where
  pub id : Text
  pub group : Text
  pub ts : ℤ
  pub deliver_after : ℤ
  pub heartbeat : ℤ
  pub claim_comment : Text
  pub payload : Text

-- What the broker shows to its clients.
pub record ExternalMessage : Type 0 where
  pub id : Text
  pub group : Text
  pub payload : Text

abbrev pub to_external : Message → ExternalMessage
to_external m = record { id = m.id; group = m.group; payload = m.payload }

unfoldable pub deliver_earlier_than : Message → Message → Bool
deliver_earlier_than l r =
    if not (int_eq l.deliver_after r.deliver_after)
    then int_lt l.deliver_after r.deliver_after
    else text_lt l.id r.id

pub data HeapType : Type 0 where
  q_heap wip_heap unknown_heap : HeapType

-- The error value is the heap type that comes with it.
unfoldable pub string_to_heap_type : Text → HeapType × Bool
string_to_heap_type s =
    if text_eq s (bytes "q")
    then (q_heap, true)
    else if text_eq s (bytes "wip")
    then (wip_heap, true)
    else (unknown_heap, false)

pub data QueueRead : Type 0 where
  read_head read_tail read_filter read_unknown : QueueRead

unfoldable pub string_to_queue_read : Text → QueueRead × Bool
string_to_queue_read s =
    if text_eq s (bytes "head")
    then (read_head, true)
    else if text_eq s (bytes "tail")
    then (read_tail, true)
    else if text_eq s (bytes "filter")
    then (read_filter, true)
    else (read_unknown, false)

-- `MaxMessages` is an int, which may be negative.
pub record Broker : Type 0 where
  pub q : List Message
  pub wip : Assoc Message
  pub max_messages : ℤ

abbrev pub new_broker : ℤ → Broker
new_broker max = record { q = []; wip = []; max_messages = max }

unfoldable pub sort_q : List Message → List Message
sort_q q = sort_func deliver_earlier_than q

pub deliver_earlier_than-IsStrictWeak : IsStrictWeak deliver_earlier_than
unfolding deliver_earlier_than
deliver_earlier_than-IsStrictWeak = record {
  asymm = λ a b h. ground (arith, text_lt_asymm a.id b.id);
  ge_trans = λ a b c h k. ground (arith, text_ge_trans a.id b.id c.id);
}
