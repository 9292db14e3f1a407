-- ===== src/Mq/Exchange.antt =====
-- The calls of pkg/mq/capimq_async_consumer.go through pkg/exe/mq/capimq.go against the broker's own
-- operations.
use capillaries.Prelude.{
  ◌≡◌, refl, ◌∙◌, ap, true, false, ◌||◌, List, [], ◌∷◌, ◌++◌, Option, none, some, arith,
  if◌then◌else◌,
}
use capillaries.Prelude.Int.{ℤ}
use capillaries.Prelude.Text.{Text, bytes, text_eq}
use capillaries.Prelude.Trim.{segments}
use capillaries.Prelude.Outcome.{Outcome, done, error}
use capillaries.Broker.Message.{ExternalMessage, Message, Broker, to_external}
use capillaries.Broker.Ops.{BrokerError, claim, ack, heartbeat, return}
use capillaries.Mq.Routes.{
  post, delete, Handler, handle_claim, handle_ack, handle_heartbeat, handle_return, handled,
  is_id_byte, match_parts, matches_part, routes, pick, id_group,
}
use capillaries.Mq.Moves.{
  Server, Request, claim_replies, serve_claim, serve_ack, serve_heartbeat, serve_return, replied,
  id_from_request, nonempty_id, field_by_index, with_id,
}
use capillaries.Mq.Server.{serve_http, serve_picked, serve_handler}
use capillaries.Mq.Client.{
  BatchTask, Codec, request, body_of, reply_body, delivered, CallError, bad_status, claim_call,
  ack_call, retry_call, heartbeat_call, read_message, read_task, read_status, status_of, response,
  status_call, exchange, claim_call, read_claim,
}

-- An id that the routes accept.
abbrev pub IsId : Text → Type 0
IsId id = (text_eq id [] ≡ false) × (is_id_byte id ≡ true)

id_is_segment : (id : Text) → is_id_byte id ≡ true → segments id ≡ id ∷ []
unfolding segments
id_is_segment [] h = refl
id_is_segment (x ∷ id) h = ground (arith, id_is_segment id)

module _ (id : Text) (valid : IsId id) where
  id_group-matches : matches_part id_group id ≡ true
  unfolding matches_part
  id_group-matches = ground (arith, valid.0, valid.1)

  pick-ack :
      pick routes delete ([] ∷ bytes "wip" ∷ bytes "ack" ∷ id ∷ []) []
      ≡ handled handle_ack (id ∷ [])
  unfolding pick routes match_parts text_eq
  pick-ack = ground (arith, id_group-matches)

  path-ack : segments (bytes "/wip/ack/" ++ id) ≡ [] ∷ bytes "wip" ∷ bytes "ack" ∷ id ∷ []
  unfolding segments
  path-ack = cc (id_is_segment id valid.1)

  pick-heartbeat :
      pick routes post ([] ∷ bytes "wip" ∷ bytes "heartbeat" ∷ id ∷ []) []
      ≡ handled handle_heartbeat (id ∷ [])
  unfolding pick routes match_parts text_eq
  pick-heartbeat = ground (arith, id_group-matches)

  path-heartbeat :
      segments (bytes "/wip/heartbeat/" ++ id) ≡ [] ∷ bytes "wip" ∷ bytes "heartbeat" ∷ id ∷ []
  unfolding segments
  path-heartbeat = cc (id_is_segment id valid.1)

  pick-return :
      pick routes post ([] ∷ bytes "wip" ∷ bytes "return" ∷ id ∷ []) []
      ≡ handled handle_return (id ∷ [])
  unfolding pick routes match_parts text_eq
  pick-return = ground (arith, id_group-matches)

  path-return : segments (bytes "/wip/return/" ++ id) ≡ [] ∷ bytes "wip" ∷ bytes "return" ∷ id ∷ []
  unfolding segments
  path-return = cc (id_is_segment id valid.1)

  id-found : id_from_request (id ∷ []) 0 ≡ done id
  unfolding id_from_request field_by_index nonempty_id
  id-found = ground (arith, valid.0)

pick-claim : pick routes post (segments (bytes "/q/claim")) [] ≡ handled handle_claim []
unfolding pick routes match_parts matches_part text_eq segments
pick-claim = refl

-- The result of a call whose operation has returned.
abbrev pub call_result : Broker × Option BrokerError → Broker × Outcome CallError (Unit {0})
call_result (b, none) = (b, done tt)
call_result (b, some e) = (b, error (bad_status 500))

module _ (c : Codec) (srv : Server) (now : ℤ) where
  answered :
      (x : Broker × Option BrokerError)
      → ((replied x).0, read_status c srv now (response c (replied x).1)) ≡ call_result x
  unfolding read_status status_of
  answered (b, none) = refl
  answered (b, some e) = refl

  -- What the consumer reads of a claimed message.
  abbrev pub claim_result : Broker × Option Message → Broker × Outcome CallError (Option BatchTask)
  claim_result (b, none) = (b, done none)
  claim_result (b, some m) = (b, read_task c srv now (to_external m))

  over_http :
      (link_request : Request) (x : Broker × Option BrokerError) (b : Broker)
      → serve_http srv now link_request b ≡ replied x
      → (
        (exchange c srv now delivered link_request b).0,
        read_status c srv now (exchange c srv now delivered link_request b).1,
      )
        ≡ call_result x
  unfolding exchange
  over_http r x b h = ap (λ s. (s.0, read_status c srv now (response c s.1))) h ∙ answered x

  served :
      (r : Request) (h : Handler) (groups parts : List Text) (b : Broker)
      → segments r.path ≡ parts
      → pick routes r.method parts [] ≡ handled h groups
      → serve_http srv now r b ≡ serve_handler srv now r h groups b
  unfolding serve_http serve_picked
  served r h groups parts b p q =
      ap (λ k. serve_picked srv now r k b) (ap (λ s. pick routes r.method s []) p ∙ q)

  module _ (id : Text) (valid : IsId id) (b : Broker) where
    ack_call-exact : ack_call c srv now delivered id b ≡ call_result (ack id b)
    unfolding ack_call status_call serve_handler serve_ack with_id
    ack_call-exact =
        let r = request delete (bytes "/wip/ack/" ++ id) [] in
        over_http r (ack id b) b (
          served r handle_ack (id ∷ []) _ b (path-ack id valid) (pick-ack id valid)
          ∙ ap (λ o. with_id o b (λ i. ack i b)) (id-found id valid))

    heartbeat_call-exact :
        heartbeat_call c srv now delivered id b ≡ call_result (heartbeat id now b)
    unfolding heartbeat_call status_call serve_handler serve_heartbeat with_id
    heartbeat_call-exact =
        let r = request post (bytes "/wip/heartbeat/" ++ id) [] in
        over_http r (heartbeat id now b) b (
          served r handle_heartbeat (id ∷ []) _ b (path-heartbeat id valid)
            (pick-heartbeat id valid)
          ∙ ap (λ o. with_id o b (λ i. heartbeat i now b)) (id-found id valid))

    retry_call-exact :
        retry_call c srv now delivered id b
        ≡ call_result (return now srv.returned_delivery_delay id b)
    unfolding retry_call status_call serve_handler serve_return with_id
    retry_call-exact =
        let r = request post (bytes "/wip/return/" ++ id) [] in
        over_http r (return now srv.returned_delivery_delay id b) b (
          served r handle_return (id ∷ []) _ b (path-return id valid) (pick-return id valid)
          ∙ ap (λ o. with_id o b (λ i. return now srv.returned_delivery_delay i b))
              (id-found id valid))

-- Over a connection that delivers, the consumer's ack, heartbeat and retry of an id that the routes
-- accept are the broker's: the same state after, and an error exactly when the broker gives one.
pub calls-exact :
    (c : Codec) (srv : Server) (now : ℤ) (id : Text) (b : Broker)
    → IsId id
    → (ack_call c srv now delivered id b ≡ call_result (ack id b))
      × (heartbeat_call c srv now delivered id b ≡ call_result (heartbeat id now b))
      × (retry_call c srv now delivered id b
          ≡ call_result (return now srv.returned_delivery_delay id b))
calls-exact c srv now id b valid = (
  ack_call-exact c srv now id valid b,
  heartbeat_call-exact c srv now id valid b,
  retry_call-exact c srv now id valid b,
)

append_nil : (t : Text) → t ++ [] ≡ t
append_nil [] = refl
append_nil (x ∷ t) = ap (λ r. x ∷ r) (append_nil t)

-- JSON of a message is not empty and not `null`, and is read back.
abbrev pub IsFaithful : Codec → Message → Type 0
IsFaithful c m =
    (text_eq (c.marshal_message (to_external m)) [] ≡ false)
    × (text_eq (c.marshal_message (to_external m)) (bytes "null") ≡ false)
    × (c.unmarshal_message (c.marshal_message (to_external m)) ≡ some (to_external m))

module _ (c : Codec) (srv : Server) (now : ℤ) where
  read_whole :
      (t : Text) (m : ExternalMessage)
      → text_eq t [] ≡ false
      → text_eq t (bytes "null") ≡ false
      → c.unmarshal_message t ≡ some m
      → (if text_eq (t ++ []) [] || text_eq (t ++ []) (bytes "null")
          then done none
          else read_message c srv now (c.unmarshal_message (t ++ [])))
        ≡ read_task c srv now m
  unfolding read_message
  read_whole t m p q h = rw (append_nil t, p, q, h) refl

  claim_replied :
      (x : Broker × Option Message)
      → ((m : Message) → x.1 ≡ some m → IsFaithful c m)
      → (x.0, read_claim c srv now (response c (claim_replies x.1))) ≡ claim_result c srv now x
  unfolding read_claim status_of body_of reply_body text_eq
  claim_replied (b, none) f = refl
  claim_replied (b, some m) f =
      let fact = f m refl in
      ap (λ o. (b, o))
        (read_whole (c.marshal_message (to_external m)) (to_external m) fact.0 fact.1 fact.2)

  -- Over a connection that delivers, when JSON of the claimed message is read back, a claim of the
  -- consumer claims what the broker's claim does, and gives its payload, decoded, under its id.
  pub claim_call-exact :
      (name : Text) (b : Broker)
      → ((m : Message) → (claim now name b).1 ≡ some m → IsFaithful c m)
      → claim_call c srv now delivered name b ≡ claim_result c srv now (claim now name b)
  unfolding claim_call exchange serve_handler serve_claim
  claim_call-exact name b f =
      let r = request post (bytes "/q/claim") name in
      ap (λ s. (s.0, read_claim c srv now (response c s.1)))
        (served c srv now r handle_claim [] _ b refl pick-claim)
      ∙ claim_replied (claim now name b) f
