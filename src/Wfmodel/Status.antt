-- ===== src/Wfmodel/Status.antt =====
-- The status codes of pkg/wfmodel/batch_history.go and run_history.go, both int8 in Go.
use capillaries.Prelude.{if◌then◌else◌}
use capillaries.Prelude.Int.{ℤ, pos, int_eq}
use Prim.Native.String.{String}

abbrev pub NodeBatchStatus : Type 0
NodeBatchStatus = ℤ

abbrev pub node_batch_none : NodeBatchStatus
node_batch_none = pos 0

abbrev pub node_batch_start : NodeBatchStatus
node_batch_start = pos 1

abbrev pub node_batch_success : NodeBatchStatus
node_batch_success = pos 2

abbrev pub node_batch_fail : NodeBatchStatus
node_batch_fail = pos 3

abbrev pub node_batch_run_stop_received : NodeBatchStatus
node_batch_run_stop_received = pos 104

unfoldable pub node_batch_status_to_string : NodeBatchStatus → String
node_batch_status_to_string s =
    if int_eq s node_batch_none
    then "none"
    else if int_eq s node_batch_start
    then "start"
    else if int_eq s node_batch_success
    then "success"
    else if int_eq s node_batch_fail
    then "fail"
    else if int_eq s node_batch_run_stop_received
    then "stopreceived"
    else "unknown"

abbrev pub RunStatus : Type 0
RunStatus = ℤ

abbrev pub run_none : RunStatus
run_none = pos 0

abbrev pub run_start : RunStatus
run_start = pos 1

abbrev pub run_complete : RunStatus
run_complete = pos 2

abbrev pub run_stop : RunStatus
run_stop = pos 3

unfoldable pub run_status_to_string : RunStatus → String
run_status_to_string s =
    if int_eq s run_none
    then "none"
    else if int_eq s run_start
    then "start"
    else if int_eq s run_complete
    then "complete"
    else if int_eq s run_stop
    then "stop"
    else "unknown"
