-- ===== src/Mq/Server.antt =====
-- The handlers of pkg/exe/mq/capimq.go that count, list and purge messages, and ServeHTTP.
use capillaries.Prelude.{List, [], ◌∷◌, ◌++◌, Option, none, some, map, if◌then◌else◌}
use capillaries.Prelude.Int.{ℤ, pos, int_lt}
use capillaries.Prelude.Text.{Text}
use capillaries.Prelude.Trim.{segments}
use capillaries.Prelude.Outcome.{Outcome, done, error}
use capillaries.Prelude.Decimal.{parse_int}
use capillaries.Broker.Message.{
  Broker, HeapType, QueueRead, read_head, read_tail, read_filter, read_unknown, unknown_heap,
  string_to_heap_type, string_to_queue_read, to_external,
}
use capillaries.Broker.Views.{count, purge, head_tail, filter_groups}
use capillaries.Mq.Moves.{
  ApiError, invalid_heap_type, invalid_queue_read, invalid_from, invalid_count,
  unexpected_queue_read, Reply, api_error, messages, number, method_not_allowed, page_not_found,
  Request, Server, Served, field_by_index, serve_bulk, serve_claim, serve_ack, serve_heartbeat,
  serve_return,
}
use capillaries.Mq.Routes.{
  Handler, handle_bulk, handle_claim, handle_ack, handle_heartbeat, handle_return, handle_count,
  handle_delete, handle_head_tail_filter, Picked, handled, not_allowed, not_found, routes, pick,
}

-- The heap with what is written when there is none; the handlers go on with it in any case.
unfoldable pub heap_from_field : Outcome ApiError Text → HeapType × List Reply
unfolding string_to_heap_type
heap_from_field (error e) = (unknown_heap, api_error e ∷ [])
heap_from_field (done s) =
    let (found, ok) = string_to_heap_type s in
    (found, if ok then [] else api_error (invalid_heap_type s) ∷ [])

unfoldable pub read_from_field : Outcome ApiError Text → QueueRead × List Reply
unfolding string_to_queue_read
read_from_field (error e) = (read_unknown, api_error e ∷ [])
read_from_field (done s) =
    let (read, ok) = string_to_queue_read s in
    (read, if ok then [] else api_error (invalid_queue_read s) ∷ [])

-- count
unfoldable pub serve_count : Request → List Text → Broker → Served
unfolding heap_from_field field_by_index count
serve_count r groups b =
    let (heap, replies) = heap_from_field (field_by_index groups 0) in
    (b, replies ++ number (count heap r.query_prefix b) ∷ [])

-- delete
unfoldable pub serve_delete : Request → List Text → Broker → Served
unfolding heap_from_field field_by_index purge
serve_delete r groups b =
    let (heap, replies) = heap_from_field (field_by_index groups 0) in
    let (after, n) = purge heap r.query_prefix b in (after, replies ++ number n ∷ [])

-- A parameter of the query, 0 when it is not given, that is at least a least value.
unfoldable pub int_param : Text → ℤ → Option ℤ
unfolding parse_int
int_param [] least = some (pos 0)
int_param (c ∷ s) least = elim (parse_int (c ∷ s)) [
  | none ↦ none
  | some n ↦ if int_lt n least then none else some n
]

-- getFromCountParamsFromQuery
unfoldable pub from_count_params : Request → Outcome ApiError (ℤ × ℤ)
unfolding int_param
from_count_params r = elim (int_param r.query_from (pos 0)) [
  | none ↦ error (invalid_from r.query_from)
  | some from ↦ elim (int_param r.query_count (pos 1)) [
    | none ↦ error (invalid_count r.query_count)
    | some n ↦ done (from, n)
  ]
]

-- After an error the page begins at 0 and has no messages.
unfoldable pub page_from_params :
    HeapType → QueueRead → Outcome ApiError (ℤ × ℤ) → Broker → List Reply
unfolding head_tail
page_from_params heap read (error e) b =
    api_error e ∷ messages (map to_external (head_tail heap read (pos 0) (pos 0) b)) ∷ []
page_from_params heap read (done (from, n)) b =
    messages (map to_external (head_tail heap read from n b)) ∷ []

unfoldable pub read_replies : Request → HeapType → QueueRead → Broker → List Reply
unfolding page_from_params from_count_params filter_groups
read_replies r h read_head b = page_from_params h read_head (from_count_params r) b
read_replies r h read_tail b = page_from_params h read_tail (from_count_params r) b
read_replies r h read_filter b = messages (map to_external (filter_groups h r.query_prefix b)) ∷ []
read_replies r h read_unknown b = api_error unexpected_queue_read ∷ []

-- headTailFilter
unfoldable pub serve_head_tail_filter : Request → List Text → Broker → Served
unfolding heap_from_field read_from_field field_by_index read_replies
serve_head_tail_filter r groups b =
    let (heap, heap_errors) = heap_from_field (field_by_index groups 0) in
    let (read, read_errors) = read_from_field (field_by_index groups 1) in
    (b, heap_errors ++ read_errors ++ read_replies r heap read b)

unfoldable pub serve_handler : Server → ℤ → Request → Handler → List Text → Broker → Served
unfolding serve_bulk serve_claim serve_ack serve_heartbeat serve_return serve_count serve_delete
    serve_head_tail_filter
serve_handler srv now r handle_bulk groups b = serve_bulk srv now r.body b
serve_handler srv now r handle_claim groups b = serve_claim now r.body b
serve_handler srv now r handle_ack groups b = serve_ack groups b
serve_handler srv now r handle_heartbeat groups b = serve_heartbeat now groups b
serve_handler srv now r handle_return groups b = serve_return srv now groups b
serve_handler srv now r handle_count groups b = serve_count r groups b
serve_handler srv now r handle_delete groups b = serve_delete r groups b
serve_handler srv now r handle_head_tail_filter groups b = serve_head_tail_filter r groups b

unfoldable pub serve_picked : Server → ℤ → Request → Picked → Broker → Served
unfolding serve_handler
serve_picked srv now r (handled h groups) b = serve_handler srv now r h groups b
serve_picked srv now r (not_allowed allow) b = (b, method_not_allowed allow ∷ [])
serve_picked srv now r not_found b = (b, page_not_found ∷ [])

-- ServeHTTP
unfoldable pub serve_http : Server → ℤ → Request → Broker → Served
unfolding serve_picked pick routes segments
serve_http srv now r b = serve_picked srv now r (pick routes r.method (segments r.path) []) b
