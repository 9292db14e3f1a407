-- ===== src/Wfmodel/RunHistory.antt =====
-- pkg/wfmodel/run_history.go: the history of runs.
pub mod Current
use Prim.Native.String.{String}
use text.Mathlib.Text.{◌==◌ as str_eq}
use capillaries.Prelude.{
  ◌≡◌, refl, arith, Bool, true, false, not, ◌&&◌, ◌||◌, Option, none, some, List, [], ◌∷◌,
  if◌then◌else◌,
}
use capillaries.Prelude.Int.{ℤ, pos, int_lt, int_eq}
use capillaries.Prelude.Text.{Text}
use capillaries.Prelude.Sort.{sort_func}
use capillaries.Prelude.IntMap.{IntMap, lookup, put}
use capillaries.Wfmodel.Row.{
  Time, epoch, zero_time, unix, Row, Result, ok, err, unknown_field, unexpected_sequence, ◌>>=◌,
  read_time_from_row, read_int16_from_row, read_string_from_row, read_run_status_from_row,
}
use capillaries.Wfmodel.Status.{RunStatus, run_none, run_start, run_complete, run_stop}

pub record RunHistoryEvent : Type 0 where
  pub ts : Time
  pub run_id : ℤ
  pub status : RunStatus
  pub comment : Text

-- `&RunHistoryEvent{}`
abbrev blank_run_event : RunHistoryEvent
blank_run_event = record { ts = zero_time; run_id = pos 0; status = run_none; comment = [] }

abbrev pub run_history_event_all_fields : List String
run_history_event_all_fields = "ts" ∷ "run_id" ∷ "status" ∷ "comment" ∷ []

read_run_field : String → Row → RunHistoryEvent → Result RunHistoryEvent
read_run_field name r e =
    if str_eq name "ts"
    then (do v ← read_time_from_row name r; ok (record e { ts = v }))
    else if str_eq name "run_id"
    then (do v ← read_int16_from_row name r; ok (record e { run_id = v }))
    else if str_eq name "status"
    then (do v ← read_run_status_from_row name r; ok (record e { status = v }))
    else if str_eq name "comment"
    then (do v ← read_string_from_row name r; ok (record e { comment = v }))
    else err (unknown_field name)

read_run_fields : List String → Row → RunHistoryEvent → Result RunHistoryEvent
unfolding read_run_field
read_run_fields [] r e = ok e
read_run_fields (name ∷ names) r e = do e' ← read_run_field name r e; read_run_fields names r e'

unfoldable pub new_run_history_event_from_map : Row → List String → Result RunHistoryEvent
unfolding read_run_fields
new_run_history_event_from_map r fields = read_run_fields fields r blank_run_event

-- The status of a run after one more event.
unfoldable pub merge_run_status : RunStatus → Option RunStatus → RunStatus
merge_run_status s none = s
merge_run_status s (some cur) =
    if int_eq s run_stop
    then run_stop
    else if int_eq s run_complete && not (int_eq cur run_stop)
    then run_complete
    else if int_eq s run_start && (not (int_eq cur run_stop) && not (int_eq cur run_complete))
    then run_start
    else cur

unfoldable pub run_status_loop : List RunHistoryEvent → IntMap RunStatus → IntMap RunStatus
unfolding merge_run_status
run_status_loop [] m = m
run_status_loop (e ∷ es) m =
    run_status_loop es (put e.run_id (merge_run_status e.status (lookup e.run_id m)) m)

unfoldable pub run_history_events_to_run_status_map : List RunHistoryEvent → IntMap RunStatus
unfolding run_status_loop
run_history_events_to_run_status_map es = run_status_loop es []

unfoldable pub run_events : List String → List Row → Result (List RunHistoryEvent)
run_events fields [] = ok []
run_events fields (r ∷ rows) = do
  e ← new_run_history_event_from_map r fields
  es ← run_events fields rows
  ok (e ∷ es)

abbrev pub earlier_run_event : RunHistoryEvent → RunHistoryEvent → Bool
earlier_run_event l r = int_lt l.ts r.ts

unfoldable pub run_history_rows_to_events : List Row → Result (List RunHistoryEvent)
run_history_rows_to_events rows = do
  es ← run_events run_history_event_all_fields rows
  ok (sort_func earlier_run_event es)

pub record RunLifespan : Type 0 where
  pub run_id : ℤ
  pub start_ts : Time
  pub start_comment : Text
  pub final_status : RunStatus
  pub completed_ts : Time
  pub completed_comment : Text
  pub stopped_ts : Time
  pub stopped_comment : Text

abbrev started_lifespan : RunHistoryEvent → RunLifespan
started_lifespan e = record {
  run_id = e.run_id;
  start_ts = e.ts;
  start_comment = e.comment;
  final_status = run_start;
  completed_ts = zero_time;
  completed_comment = [];
  stopped_ts = zero_time;
  stopped_comment = [];
}

-- `t.Unix() == time.Time{}.Unix()`
abbrev is_empty_time : Time → Bool
is_empty_time t = int_eq (unix t) (unix zero_time)

unfoldable pub end_lifespan : RunHistoryEvent → RunLifespan → RunLifespan
unfolding unix
end_lifespan e ls =
    if int_eq e.status run_complete && is_empty_time ls.completed_ts
    then record ls {
      completed_ts = e.ts;
      completed_comment = e.comment;
      final_status = if is_empty_time ls.stopped_ts then run_complete else ls.final_status;
    }
    else if int_eq e.status run_stop && is_empty_time ls.stopped_ts
    then record ls { stopped_ts = e.ts; stopped_comment = e.comment; final_status = run_stop }
    else ls

lifespan_of : RunHistoryEvent → Option RunLifespan → Result RunLifespan
unfolding end_lifespan
lifespan_of e none =
    if int_eq e.status run_start then ok (started_lifespan e) else err unexpected_sequence
lifespan_of e (some ls) =
    if int_eq e.status run_start then ok (started_lifespan e) else ok (end_lifespan e ls)

unfoldable pub lifespan_loop :
    List RunHistoryEvent → IntMap RunLifespan → Result (IntMap RunLifespan)
unfolding lifespan_of
lifespan_loop [] m = ok m
lifespan_loop (e ∷ es) m = do
  ls ← lifespan_of e (lookup e.run_id m)
  lifespan_loop es (put e.run_id ls m)

unfoldable pub run_history_events_to_lifespan_map :
    List RunHistoryEvent → Result (IntMap RunLifespan)
unfolding lifespan_loop
run_history_events_to_lifespan_map es = lifespan_loop es []

pub record LastRunStatus : Type 0 where
  pub status : RunStatus
  pub ts : Time

abbrev pub no_run_status : LastRunStatus
no_run_status = record { status = run_none; ts = epoch }

unfoldable pub later_run_status : LastRunStatus → RunHistoryEvent → LastRunStatus
later_run_status s e = if int_lt s.ts e.ts then record { status = e.status; ts = e.ts } else s

unfoldable pub run_rows_loop : List Row → LastRunStatus → Result LastRunStatus
unfolding later_run_status
run_rows_loop [] s = ok s
run_rows_loop (r ∷ rows) s = do
  e ← new_run_history_event_from_map r ("ts" ∷ "status" ∷ [])
  run_rows_loop rows (later_run_status s e)

unfoldable pub run_history_rows_to_status : List Row → Result RunStatus
unfolding run_rows_loop
run_history_rows_to_status rows = do s ← run_rows_loop rows no_run_status; ok s.status
