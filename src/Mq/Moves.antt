-- ===== src/Mq/Moves.antt =====
-- The handlers of pkg/exe/mq/capimq.go that move messages. A handler writes replies to the response, more than one where
-- the code does not return after the first, and calls the broker. Reading of the body and JSON are
-- parameters; headers, metrics and log lines are left out.
use capillaries.Prelude.{ℕ, List, [], ◌∷◌, Option, none, some, get_elem?, if◌then◌else◌}
use capillaries.Prelude.Int.{ℤ}
use capillaries.Prelude.Text.{Text, text_eq}
use capillaries.Prelude.Outcome.{Outcome, done, error}
use capillaries.Broker.Message.{Message, ExternalMessage, Broker, to_external}
use capillaries.Broker.Ops.{BrokerError, q_bulk, claim, ack, heartbeat, return}
use capillaries.Mq.Routes.{Method}

pub data ApiError : Type 0 where
  cannot_read_body cannot_unmarshal : ApiError
  broker_failed : BrokerError → ApiError
  no_field : ℕ → ApiError
  meaningless_id : ApiError
  invalid_heap_type invalid_queue_read invalid_from invalid_count : Text → ApiError
  unexpected_queue_read : ApiError

-- What is written to a response: an error with status 500, nothing, or data as JSON.
pub data Reply : Type 0 where
  api_error : ApiError → Reply
  dataless : Reply
  one_message : Option ExternalMessage → Reply
  messages : List ExternalMessage → Reply
  number : ℕ → Reply
  method_not_allowed : List Method → Reply
  page_not_found : Reply

-- The body, when it can be read, and the values of the query, empty when they are not given.
pub record Request : Type 0 where
  pub method : Method
  pub path : Text
  pub body : Option Text
  pub query_from : Text
  pub query_count : Text
  pub query_prefix : Text

-- The configuration, and the decoding of the body of a bulk. An element of it may be `null`.
pub record Server : Type 0 where
  pub unmarshal_messages : Text → Option (List (Option ExternalMessage))
  pub returned_delivery_delay : ℤ
  pub dead_after_no_heartbeat_timeout : ℤ

unfoldable pub field_by_index : List Text → ℕ → Outcome ApiError Text
field_by_index fields i = elim (get_elem? fields i) [ none ↦ error (no_field i) | some s ↦ done s ]

unfoldable pub nonempty_id : Outcome ApiError Text → Outcome ApiError Text
nonempty_id (error e) = error e
nonempty_id (done id) = if text_eq id [] then error meaningless_id else done id

unfoldable pub id_from_request : List Text → ℕ → Outcome ApiError Text
unfolding field_by_index nonempty_id
id_from_request fields i = nonempty_id (field_by_index fields i)

abbrev pub new_message : ℤ → ExternalMessage → Message
new_message now m = record {
  id = m.id;
  group = m.group;
  ts = now;
  deliver_after = now;
  heartbeat = now;
  claim_comment = [];
  payload = m.payload;
}

-- A `null` is dereferenced, which ends the handler before it has called the broker.
unfoldable pub internal_messages : ℤ → List (Option ExternalMessage) → Option (List Message)
internal_messages now [] = some []
internal_messages now (none ∷ ms) = none
internal_messages now (some m ∷ ms) = elim (internal_messages now ms) [
  | none ↦ none
  | some rest ↦ some (new_message now m ∷ rest)
]

abbrev pub Served : Type 0
Served = Broker × List Reply

-- The error of QBulk is written, and then the success.
abbrev pub error_and_success : Option BrokerError → List Reply
error_and_success none = dataless ∷ []
error_and_success (some e) = api_error (broker_failed e) ∷ dataless ∷ []

unfoldable pub bulk_decoded : ℤ → Broker → Option (List (Option ExternalMessage)) → Served
unfolding internal_messages q_bulk
bulk_decoded now b none = (b, api_error cannot_unmarshal ∷ [])
bulk_decoded now b (some msgs) = elim (internal_messages now msgs) [
  | none ↦ (b, [])
  | some internal ↦ let (after, e) = q_bulk now internal b in (after, error_and_success e)
]

-- qBulk
unfoldable pub serve_bulk : Server → ℤ → Option Text → Broker → Served
unfolding bulk_decoded
serve_bulk srv now none b = (b, api_error cannot_read_body ∷ [])
serve_bulk srv now (some body) b = bulk_decoded now b (srv.unmarshal_messages body)

-- Without a message, the success is written, and then the absent message, which is `null`.
abbrev pub claim_replies : Option Message → List Reply
claim_replies none = dataless ∷ one_message none ∷ []
claim_replies (some m) = one_message (some (to_external m)) ∷ []

-- qClaim
unfoldable pub serve_claim : ℤ → Option Text → Broker → Served
unfolding claim
serve_claim now none b = (b, api_error cannot_read_body ∷ [])
serve_claim now (some comment) b = let (after, m) = claim now comment b in (after, claim_replies m)

abbrev pub error_or_success : Option BrokerError → List Reply
error_or_success none = dataless ∷ []
error_or_success (some e) = api_error (broker_failed e) ∷ []

abbrev pub replied : Broker × Option BrokerError → Served
replied (b, e) = (b, error_or_success e)

unfoldable pub with_id :
    Outcome ApiError Text → Broker → (Text → Broker × Option BrokerError) → Served
with_id (error e) b operation = (b, api_error e ∷ [])
with_id (done id) b operation = replied (operation id)

-- wipAck
unfoldable pub serve_ack : List Text → Broker → Served
unfolding with_id id_from_request ack
serve_ack groups b = with_id (id_from_request groups 0) b (λ id. ack id b)

-- wipHeartbeat
unfoldable pub serve_heartbeat : ℤ → List Text → Broker → Served
unfolding with_id id_from_request heartbeat
serve_heartbeat now groups b = with_id (id_from_request groups 0) b (λ id. heartbeat id now b)

-- wipReturn
unfoldable pub serve_return : Server → ℤ → List Text → Broker → Served
unfolding with_id id_from_request return
serve_return srv now groups b =
    with_id (id_from_request groups 0) b (λ id. return now srv.returned_delivery_delay id b)
