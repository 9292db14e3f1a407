-- ===== src/Wfmodel/NodeHistory.antt =====
-- pkg/wfmodel/node_history.go: the history of nodes, and the status of a run from its nodes.
pub mod RunStatus
pub mod Unique
use Prim.Native.String.{String}
use text.Mathlib.Text.{◌==◌ as str_eq}
use capillaries.Prelude.{
  ◌≡◌, refl, arith, Bool, true, false, not, ◌&&◌, ◌||◌, Option, none, some, List, [], ◌∷◌, ◌++◌,
  if◌then◌else◌,
}
use capillaries.Prelude.Int.{ℤ, pos, int_lt, int_eq}
use capillaries.Prelude.Text.{Text, text_eq, text_lt}
use capillaries.Prelude.Sort.{sort_func}
use capillaries.Prelude.Assoc.{Assoc, lookup, put, values}
use capillaries.Wfmodel.Row.{
  zero_time, Time, Row, Result, ok, err, unknown_field, ◌>>=◌, read_time_from_row,
  read_int16_from_row, read_string_from_row, read_node_batch_status_from_row,
}
use capillaries.Wfmodel.Status.{
  NodeBatchStatus, node_batch_none, node_batch_start, node_batch_success, node_batch_fail,
  node_batch_run_stop_received,
}

pub record NodeHistoryEvent : Type 0 where
  pub ts : Time
  pub run_id : ℤ
  pub script_node : Text
  pub written_by_batch_idx : ℤ
  pub status : NodeBatchStatus
  pub comment : Text

-- `&NodeHistoryEvent{}`
abbrev blank_node_event : NodeHistoryEvent
blank_node_event = record {
  ts = zero_time;
  run_id = pos 0;
  script_node = [];
  written_by_batch_idx = pos 0;
  status = node_batch_none;
  comment = [];
}

abbrev pub node_history_event_all_fields : List String
node_history_event_all_fields =
    "ts" ∷ "run_id" ∷ "script_node" ∷ "written_by_batch_idx" ∷ "status" ∷ "comment" ∷ []

read_node_field : String → Row → NodeHistoryEvent → Result NodeHistoryEvent
read_node_field name r e =
    if str_eq name "ts"
    then (do v ← read_time_from_row name r; ok (record e { ts = v }))
    else if str_eq name "run_id"
    then (do v ← read_int16_from_row name r; ok (record e { run_id = v }))
    else if str_eq name "script_node"
    then (do v ← read_string_from_row name r; ok (record e { script_node = v }))
    else if str_eq name "written_by_batch_idx"
    then (do v ← read_int16_from_row name r; ok (record e { written_by_batch_idx = v }))
    else if str_eq name "status"
    then (do v ← read_node_batch_status_from_row name r; ok (record e { status = v }))
    else if str_eq name "comment"
    then (do v ← read_string_from_row name r; ok (record e { comment = v }))
    else err (unknown_field name)

read_node_fields : List String → Row → NodeHistoryEvent → Result NodeHistoryEvent
unfolding read_node_field
read_node_fields [] r e = ok e
read_node_fields (name ∷ names) r e = do e' ← read_node_field name r e; read_node_fields names r e'

unfoldable pub new_node_history_event_from_map : Row → List String → Result NodeHistoryEvent
unfolding read_node_fields
new_node_history_event_from_map r fields = read_node_fields fields r blank_node_event

-- A map from run and node to an event: an event stands under its own run and node, so the map is
-- the list of its events.
abbrev pub NodeEventMap : Type 0
NodeEventMap = List NodeHistoryEvent

abbrev pub same_node : NodeHistoryEvent → NodeHistoryEvent → Bool
same_node a b = int_eq a.run_id b.run_id && text_eq a.script_node b.script_node

unfoldable pub earliest_event_to_node_map : NodeHistoryEvent → NodeEventMap → NodeEventMap
earliest_event_to_node_map e [] = e ∷ []
earliest_event_to_node_map e (old ∷ m) =
    let rest = earliest_event_to_node_map e m in
    if same_node old e then (if int_lt e.ts old.ts then e else old) ∷ m else old ∷ rest

unfoldable pub last_event_to_node_map : NodeHistoryEvent → NodeEventMap → NodeEventMap
last_event_to_node_map e [] = e ∷ []
last_event_to_node_map e (old ∷ m) =
    let rest = last_event_to_node_map e m in
    if same_node old e then (if int_lt old.ts e.ts then e else old) ∷ m else old ∷ rest

pub record NodeEventMaps : Type 0 where
  pub starts : NodeEventMap
  pub successes : NodeEventMap
  pub fails : NodeEventMap
  pub stops : NodeEventMap

abbrev pub no_node_events : NodeEventMaps
no_node_events = record { starts = []; successes = []; fails = []; stops = [] }

-- The `switch` on the status.
unfoldable pub note_node_event : NodeHistoryEvent → NodeEventMaps → NodeEventMaps
unfolding earliest_event_to_node_map last_event_to_node_map
note_node_event e m =
    if int_eq e.status node_batch_start
    then record m { starts = earliest_event_to_node_map e m.starts }
    else if int_eq e.status node_batch_success
    then record m { successes = last_event_to_node_map e m.successes }
    else if int_eq e.status node_batch_fail
    then record m { fails = last_event_to_node_map e m.fails }
    else if int_eq e.status node_batch_run_stop_received
    then record m { stops = last_event_to_node_map e m.stops }
    else m

unfoldable pub node_rows_loop : List Row → NodeEventMaps → Result NodeEventMaps
node_rows_loop [] m = ok m
node_rows_loop (r ∷ rows) m = do
  e ← new_node_history_event_from_map r node_history_event_all_fields
  node_rows_loop rows (note_node_event e m)

-- `cmp.Or` of the comparisons by time, run, batch, node and status.
unfoldable pub node_event_before : NodeHistoryEvent → NodeHistoryEvent → Bool
node_event_before l r =
    if not (int_eq l.ts r.ts)
    then int_lt l.ts r.ts
    else if not (int_eq l.run_id r.run_id)
    then int_lt l.run_id r.run_id
    else if not (int_eq l.written_by_batch_idx r.written_by_batch_idx)
    then int_lt l.written_by_batch_idx r.written_by_batch_idx
    else if not (text_eq l.script_node r.script_node)
    then text_lt l.script_node r.script_node
    else int_lt l.status r.status

unfoldable pub collect_node_events : NodeEventMaps → List NodeHistoryEvent
collect_node_events m =
    sort_func node_event_before (m.starts ++ (m.successes ++ (m.fails ++ m.stops)))

unfoldable pub node_history_rows_to_events : List Row → Result (List NodeHistoryEvent)
unfolding node_rows_loop collect_node_events
node_history_rows_to_events rows = do
  m ← node_rows_loop rows no_node_events
  ok (collect_node_events m)

abbrev pub NodeStatusMap : Type 0
NodeStatusMap = Assoc NodeBatchStatus

unfoldable pub affected_to_none : List Text → NodeStatusMap → NodeStatusMap
affected_to_none [] m = m
affected_to_none (n ∷ nodes) m = affected_to_none nodes (put n node_batch_none m)

-- The two `if`s of a round, for a node whose status so far is `last`: the first writes the status
-- of the event, and the second may write another over it.
unfoldable pub next_status : NodeBatchStatus → NodeBatchStatus → NodeBatchStatus
next_status last status =
    let written = if not (int_eq last node_batch_run_stop_received) then status else last in
    if int_eq status node_batch_run_stop_received && not (int_eq last node_batch_run_stop_received)
    then node_batch_run_stop_received
    else if int_eq status node_batch_fail
        && (not (int_eq last node_batch_fail) && not (int_eq last node_batch_run_stop_received))
    then node_batch_fail
    else if int_eq status node_batch_success
        && (not (int_eq last node_batch_success)
            && (not (int_eq last node_batch_fail)
                && not (int_eq last node_batch_run_stop_received)))
    then node_batch_success
    else if int_eq status node_batch_start
        && (not (int_eq last node_batch_start)
            && (not (int_eq last node_batch_success)
                && (not (int_eq last node_batch_fail)
                    && not (int_eq last node_batch_run_stop_received))))
    then node_batch_start
    else written

note_status : NodeHistoryEvent → Option NodeBatchStatus → NodeStatusMap → NodeStatusMap
unfolding next_status
note_status e none m = put e.script_node e.status m
note_status e (some last) m = put e.script_node (next_status last e.status) m

unfoldable pub node_status_loop : List NodeHistoryEvent → ℤ → NodeStatusMap → NodeStatusMap
unfolding note_status
node_status_loop [] run_id m = m
node_status_loop (e ∷ es) run_id m =
    node_status_loop es run_id
      (if int_eq e.run_id run_id then note_status e (lookup e.script_node m) m else m)

unfoldable pub highest : List NodeBatchStatus → NodeBatchStatus → NodeBatchStatus
highest [] h = h
highest (s ∷ l) h = highest l (if int_lt h s then s else h)

unfoldable pub lowest : List NodeBatchStatus → NodeBatchStatus → NodeBatchStatus
lowest [] h = h
lowest (s ∷ l) h = lowest l (if int_lt s h then s else h)

unfoldable pub combined_status : NodeStatusMap → NodeBatchStatus
unfolding highest lowest
combined_status m =
    let low = lowest (values m) node_batch_run_stop_received in
    if int_lt node_batch_start low then highest (values m) node_batch_none else low

unfoldable pub figure_out_run_status :
    List NodeHistoryEvent → ℤ → List Text → NodeBatchStatus × NodeStatusMap
unfolding combined_status node_status_loop affected_to_none
figure_out_run_status es run_id affected =
    let m = node_status_loop es run_id (affected_to_none affected []) in (combined_status m, m)
