-- ===== src/Examples/Exchanges.antt =====
-- Runs of the consumer's calls through the server, pkg/mq and pkg/exe/mq.
use mathlib.Core.Option
use capillaries.Prelude.{◌≡◌, refl, ap, true, false, List, [], ◌∷◌, ◌++◌, Option, none, some, arith}
use capillaries.Prelude.Int.{pos}
use capillaries.Prelude.Text.{Text, bytes, text_eq}
use capillaries.Prelude.Outcome.{error}
use capillaries.Broker.Message.{Message, Broker, to_external}
use capillaries.Broker.Ops.{claim, ack, heartbeat, return, max_messages_exceeded}
use capillaries.Mq.Routes.{post, get, delete}
use capillaries.Mq.Moves.{
  Server, api_error, broker_failed, dataless, method_not_allowed, page_not_found,
}
use capillaries.Mq.Server.{serve_http}
use capillaries.Mq.Client.{
  BatchTask, Codec, request, delivered, response_lost, connection_failed, claim_call, ack_call,
  retry_call, heartbeat_call,
}
use capillaries.Mq.Exchange.{call_result, claim_result, calls-exact, claim_call-exact}

abbrev parcel : Message
parcel = record {
  id = bytes "a-1";
  group = [];
  ts = pos 1;
  deliver_after = pos 1;
  heartbeat = pos 1;
  claim_comment = [];
  payload = bytes "{}";
}

abbrev task : BatchTask
task = record {
  ts = pos 1;
  id = [];
  script_url = [];
  script_params_url = [];
  data_keyspace = [];
  run_id = pos 1;
  target_node_name = [];
  first_token = pos 0;
  last_token = pos 0;
  batch_idx = pos 0;
  batches_total = pos 1;
}

abbrev codec : Codec
codec = record {
  marshal_message = λ m. bytes "{" ++ m.id;
  unmarshal_message = λ t. some (record { id = bytes "a-1"; group = []; payload = bytes "{}" });
  unmarshal_task = λ t. some task;
  other_body = λ r. [];
}

abbrev server : Server
server = record {
  unmarshal_messages =
      λ t. some (some (record { id = bytes "b"; group = []; payload = bytes "{}" }) ∷ []);
  returned_delivery_delay = pos 10;
  dead_after_no_heartbeat_timeout = pos 100;
}

abbrev waiting : Broker
waiting = record { q = parcel ∷ []; wip = []; max_messages = pos 1 }

abbrev in_work : Broker
in_work = record { q = []; wip = (bytes "a-1", parcel) ∷ []; max_messages = pos 1 }

-- The lost response of an ack: the message is gone, and the consumer sees an error.
lost_ack :
    ack_call codec server (pos 5) response_lost (bytes "a-1") in_work
    ≡ (record { q = []; wip = []; max_messages = pos 1 }, error connection_failed)
unfolding ack_call
lost_ack = refl

wrong_method :
    (serve_http server (pos 5) (request get (bytes "/wip/ack/a-1//") []) in_work).1
    ≡ method_not_allowed (delete ∷ []) ∷ []
unfolding serve_http
wrong_method = refl

no_page :
    (serve_http server (pos 5) (request get (bytes "/wip/ack/xyz") []) in_work).1
    ≡ page_not_found ∷ []
unfolding serve_http
no_page = refl

-- A bulk that exceeds the number of messages is answered by an error and a success.
bulk_refused :
    (serve_http server (pos 5) (request post (bytes "/q/bulk") []) waiting).1
    ≡ api_error (broker_failed (max_messages_exceeded (pos 1) 1 1)) ∷ dataless ∷ []
unfolding serve_http
bulk_refused = refl

calls-exact_example :
    (ack_call codec server (pos 5) delivered (bytes "a-1") in_work
      ≡ call_result (ack (bytes "a-1") in_work))
    × (heartbeat_call codec server (pos 5) delivered (bytes "a-1") in_work
        ≡ call_result (heartbeat (bytes "a-1") (pos 5) in_work))
    × (retry_call codec server (pos 5) delivered (bytes "a-1") in_work
        ≡ call_result (return (pos 5) (pos 10) (bytes "a-1") in_work))
unfolding capillaries.Prelude.Text.text_eq
calls-exact_example = calls-exact codec server (pos 5) (bytes "a-1") in_work (refl, refl)

claim_call-exact_example :
    claim_call codec server (pos 5) delivered (bytes "me") waiting
    ≡ claim_result codec server (pos 5) (claim (pos 5) (bytes "me") waiting)
unfolding claim text_eq
claim_call-exact_example =
    claim_call-exact codec server (pos 5) (bytes "me") waiting
      (λ m h. (refl, refl, ap (Option.map to_external) h))
