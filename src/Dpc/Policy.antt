-- ===== src/Dpc/Policy.antt =====
-- pkg/dpc/dependency_policy_checker.go, with the data of pkg/sc/dependency_policy_def.go and
-- pkg/wfmodel/dependency_node_run_status.go.
use Prim.Native.String.{String}
use text.Mathlib.Text.{◌==◌ as str_eq}
use capillaries.Prelude.{
  ℕ, suc, Bool, true, false, Option, none, some, List, [], ◌∷◌, if◌then◌else◌,
}
use capillaries.Prelude.Int.{ℤ, pos, negsuc}
use capillaries.Prelude.Text.{Text, text_lt}
use capillaries.Prelude.Sort.{sort_func}
use capillaries.Wfmodel.Status.{RunStatus, NodeBatchStatus}
use capillaries.Dpc.Expr.{
  Expr, int64_val, bool_val, Eval, value, failed, EvalError, Attributes, Vars, eval,
}
use capillaries.Dpc.Key.{IdxComponentDef, build_key}

pub data NodeCmd : Type 0 where
  node_none node_go node_wait node_nogo : NodeCmd

-- The second part tells whether the text is valid.
unfoldable pub node_cmd_from_string : String → NodeCmd × Bool
node_cmd_from_string s =
    if str_eq s "none"
    then (node_none, true)
    else if str_eq s "go"
    then (node_go, true)
    else if str_eq s "wait"
    then (node_wait, true)
    else if str_eq s "nogo"
    then (node_nogo, true)
    else (node_none, false)

pub record DependencyRule : Type 0 where
  pub cmd : NodeCmd
  pub expression : Expr

pub record DependencyPolicyDef : Type 0 where
  pub rules : List DependencyRule
  pub order : List IdxComponentDef

pub record NodeRunStatus : Type 0 where
  pub run_id : ℤ
  pub run_is_current : Bool
  pub run_status : RunStatus
  pub node_status : NodeBatchStatus

abbrev wfmodel_attributes : Attributes
wfmodel_attributes =
    ("NodeBatchNone", int64_val (pos 0))
    ∷ ("NodeBatchStart", int64_val (pos 1))
    ∷ ("NodeBatchSuccess", int64_val (pos 2))
    ∷ ("NodeBatchFail", int64_val (pos 3))
    ∷ ("NodeBatchRunStopReceived", int64_val (pos 104))
    ∷ ("RunNone", int64_val (pos 0))
    ∷ ("RunStart", int64_val (pos 1))
    ∷ ("RunComplete", int64_val (pos 2))
    ∷ ("RunStop", int64_val (pos 3))
    ∷ []

abbrev pub nrs_attributes : NodeRunStatus → Attributes
nrs_attributes e =
    ("run_id", int64_val e.run_id)
    ∷ ("run_is_current", bool_val e.run_is_current)
    ∷ ("run_status", int64_val e.run_status)
    ∷ ("node_status", int64_val e.node_status)
    ∷ []

unfoldable pub dependency_checker_node_vars : NodeRunStatus → Vars
dependency_checker_node_vars e = ("wfmodel", wfmodel_attributes) ∷ ("nrs", nrs_attributes e) ∷ []

pub data PolicyError : Type 0 where
  cannot_build_key : PolicyError
  eval_failed : ℕ → EvalError → PolicyError
  expected_bool : ℕ → PolicyError
  no_events : PolicyError

-- The command, the run that it is about and the index of the rule, -1 if no rule matched.
pub record Verdict : Type 0 where
  pub cmd : NodeCmd
  pub run_id : ℤ
  pub rule_idx : ℤ

pub data Checked : Type 0 where
  verdict : Verdict → Checked
  policy_error : PolicyError → Checked

pub record KeyedStatus : Type 0 where
  pub status : NodeRunStatus
  pub sort_key : Text

abbrev pub keyed_first :
    NodeRunStatus → Option Text → Option (List KeyedStatus) → Option (List KeyedStatus)
keyed_first e none rest = none
keyed_first e (some key) none = none
keyed_first e (some key) (some rest) = some (record { status = e; sort_key = key } ∷ rest)

-- The first key that cannot be built ends the loop with an error.
unfoldable pub with_keys : List IdxComponentDef → List NodeRunStatus → Option (List KeyedStatus)
with_keys order [] = some []
with_keys order (e ∷ es) = keyed_first e (build_key (nrs_attributes e) order) (with_keys order es)

abbrev pub key_before : KeyedStatus → KeyedStatus → Bool
key_before l r = text_lt l.sort_key r.sort_key

-- The outcome of the rules on one event, from the rule with index `i` on.
pub data Outcome : Type 0 where
  matched : NodeCmd → ℕ → Outcome
  unmatched : Outcome
  broken : PolicyError → Outcome

abbrev pub rule_outcome : NodeCmd → ℕ → Eval → Outcome → Outcome
rule_outcome cmd i (failed e) rest = broken (eval_failed i e)
rule_outcome cmd i (value (int64_val n)) rest = broken (expected_bool i)
rule_outcome cmd i (value (bool_val b)) rest = if b then matched cmd i else rest

unfoldable pub check_rules : Vars → List DependencyRule → ℕ → Outcome
unfolding eval
check_rules vars [] i = unmatched
check_rules vars (rule ∷ rules) i =
    rule_outcome rule.cmd i (eval vars rule.expression) (check_rules vars rules (suc i))

abbrev pub event_checked : NodeRunStatus → Outcome → Checked → Checked
event_checked e (matched cmd i) rest =
    verdict (record { cmd = cmd; run_id = e.run_id; rule_idx = pos i })
event_checked e (broken x) rest = policy_error x
event_checked e unmatched rest = rest

-- The loop over the sorted events; `first` is the answer when no rule matches any of them.
unfoldable pub check_events : List DependencyRule → List KeyedStatus → Checked → Checked
unfolding check_rules dependency_checker_node_vars
check_events rules [] first = first
check_events rules (e ∷ es) first =
    event_checked e.status (check_rules (dependency_checker_node_vars e.status) rules 0)
      (check_events rules es first)

-- Without an event Go's `depNodeRunStatuses[0]` panics; the caller checks that there is one.
abbrev pub assume_wait : List KeyedStatus → Checked
assume_wait [] = policy_error no_events
assume_wait (e ∷ es) =
    verdict (record { cmd = node_wait; run_id = e.status.run_id; rule_idx = negsuc 0 })

unfoldable pub check_keyed : DependencyPolicyDef → Option (List KeyedStatus) → Checked
unfolding check_events
check_keyed policy none = policy_error cannot_build_key
check_keyed policy (some keyed) =
    let sorted = sort_func key_before keyed in check_events policy.rules sorted (assume_wait sorted)

unfoldable pub check_dependency_policy : DependencyPolicyDef → List NodeRunStatus → Checked
unfolding check_keyed with_keys
check_dependency_policy policy statuses = check_keyed policy (with_keys policy.order statuses)
