-- ===== src/Mq/Client.antt =====
-- pkg/mq/capimq_async_consumer.go: the calls of the consumer, over a connection that may lose a
-- request or its response, to the server. JSON is a parameter. The ids stand in paths as they are.
use capillaries.Prelude.{ℕ, ◌||◌, List, [], ◌∷◌, ◌++◌, Option, none, some, if◌then◌else◌, ◌==◌}
use capillaries.Prelude.Int.{ℤ}
use capillaries.Prelude.Text.{Text, bytes, text_eq}
use capillaries.Prelude.Outcome.{Outcome, done, error}
use capillaries.Broker.Message.{ExternalMessage, Broker}
use capillaries.Mq.Routes.{Method, post, delete}
use capillaries.Mq.Moves.{
  Reply, api_error, dataless, one_message, method_not_allowed, page_not_found, Request, Server,
}
use capillaries.Mq.Server.{serve_http}

-- The message of pkg/wfmodel/message.go.
pub record BatchTask : Type 0 where
  pub ts : ℤ
  pub id : Text
  pub script_url : Text
  pub script_params_url : Text
  pub data_keyspace : Text
  pub run_id : ℤ
  pub target_node_name : Text
  pub first_token : ℤ
  pub last_token : ℤ
  pub batch_idx : ℤ
  pub batches_total : ℤ

pub record Codec : Type 0 where
  pub marshal_message : ExternalMessage → Text
  pub unmarshal_message : Text → Option ExternalMessage
  pub unmarshal_task : Text → Option BatchTask
  pub other_body : Reply → Text

-- What becomes of a call: the server may handle a request whose response is lost.
pub data Link : Type 0 where
  delivered request_lost response_lost : Link

pub data CallError : Type 0 where
  connection_failed : CallError
  bad_status : ℕ → CallError
  cannot_unmarshal_message no_data cannot_unmarshal_task : CallError

-- The first reply that writes decides; a response without one has status 200, and without a reply the
-- handler has panicked, which closes the connection.
unfoldable pub status_of : List Reply → ℕ
status_of [] = 200
status_of (api_error e ∷ rs) = 500
status_of (method_not_allowed allow ∷ rs) = 405
status_of (page_not_found ∷ rs) = 404
status_of (dataless ∷ rs) = status_of rs
status_of (_ ∷ rs) = 200

unfoldable pub reply_body : Codec → Reply → Text
reply_body c dataless = []
reply_body c (one_message none) = bytes "null"
reply_body c (one_message (some m)) = c.marshal_message m
reply_body c r = c.other_body r

unfoldable pub body_of : Codec → List Reply → Text
unfolding reply_body
body_of c [] = []
body_of c (r ∷ rs) = reply_body c r ++ body_of c rs

abbrev pub response : Codec → List Reply → Outcome CallError (ℕ × Text)
response c [] = error connection_failed
response c (r ∷ rs) = done (status_of (r ∷ rs), body_of c (r ∷ rs))

abbrev pub request : Method → Text → Text → Request
request method path body = record {
  method = method;
  path = path;
  body = some body;
  query_from = [];
  query_count = [];
  query_prefix = [];
}

module _ (c : Codec) (srv : Server) (now : ℤ) where
  -- `http.DefaultClient.Do`
  unfoldable pub exchange : Link → Request → Broker → Broker × Outcome CallError (ℕ × Text)
  unfolding serve_http status_of body_of
  exchange request_lost r b = (b, error connection_failed)
  exchange response_lost r b = ((serve_http srv now r b).0, error connection_failed)
  exchange delivered r b =
      let (after, replies) = serve_http srv now r b in (after, response c replies)

  unfoldable pub read_task : ExternalMessage → Outcome CallError (Option BatchTask)
  read_task m = if text_eq m.payload [] then error no_data else elim (c.unmarshal_task m.payload) [
    | none ↦ error cannot_unmarshal_task
    | some t ↦ done (some (record t { id = m.id }))
  ]

  unfoldable pub read_message : Option ExternalMessage → Outcome CallError (Option BatchTask)
  unfolding read_task
  read_message none = error cannot_unmarshal_message
  read_message (some m) = read_task m

  unfoldable pub read_claim : Outcome CallError (ℕ × Text) → Outcome CallError (Option BatchTask)
  unfolding read_message
  read_claim (error e) = error e
  read_claim (done (status, body)) =
      if status == 200
      then if text_eq body [] || text_eq body (bytes "null")
        then done none
        else read_message (c.unmarshal_message body)
      else error (bad_status status)

  -- claim
  unfoldable pub claim_call : Link → Text → Broker → Broker × Outcome CallError (Option BatchTask)
  unfolding exchange read_claim
  claim_call link name b =
      let (after, answer) = exchange link (request post (bytes "/q/claim") name) b in
      (after, read_claim answer)

  unfoldable pub read_status : Outcome CallError (ℕ × Text) → Outcome CallError (Unit {0})
  read_status (error e) = error e
  read_status (done (status, body)) = if status == 200 then done tt else error (bad_status status)

  unfoldable pub status_call : Link → Method → Text → Broker → Broker × Outcome CallError (Unit {0})
  unfolding exchange read_status
  status_call link method path b =
      let (after, answer) = exchange link (request method path []) b in (after, read_status answer)

  -- ack
  unfoldable pub ack_call : Link → Text → Broker → Broker × Outcome CallError (Unit {0})
  unfolding status_call
  ack_call link id b = status_call link delete (bytes "/wip/ack/" ++ id) b

  -- retry
  unfoldable pub retry_call : Link → Text → Broker → Broker × Outcome CallError (Unit {0})
  unfolding status_call
  retry_call link id b = status_call link post (bytes "/wip/return/" ++ id) b

  -- heartbeat
  unfoldable pub heartbeat_call : Link → Text → Broker → Broker × Outcome CallError (Unit {0})
  unfolding status_call
  heartbeat_call link id b = status_call link post (bytes "/wip/heartbeat/" ++ id) b
