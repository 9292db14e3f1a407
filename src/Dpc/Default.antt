-- ===== src/Dpc/Default.antt =====
-- DefaultPolicyCheckerConfJson of pkg/sc/dependency_policy_def.go, with its expressions parsed, and
-- what it decides for one node status.
use Prim.Native.String.{String}
use capillaries.Prelude.{
  ◌≡◌, arith, Bool, true, false, not, ◌&&◌, ◌||◌, Option, none, some, List, [], ◌∷◌, if◌then◌else◌,
}
use capillaries.Prelude.Int.{ℤ, int_eq}
use capillaries.Wfmodel.Status.{
  node_batch_none, node_batch_start, node_batch_success, node_batch_fail, run_none, run_start,
  run_complete, run_stop,
}
use capillaries.Dpc.Expr.{Expr, ident, selector, binary, eql, land, lor, eval}
use capillaries.Dpc.Key.{sort_desc, int_field, bool_field}
use capillaries.Dpc.Policy.{
  NodeCmd, node_go, node_wait, node_nogo, DependencyRule, DependencyPolicyDef, NodeRunStatus,
  Outcome, matched, dependency_checker_node_vars, check_rules,
}

abbrev is_current : String → Expr
is_current b = binary eql (selector "nrs" "run_is_current") (ident b)

abbrev run_is : String → Expr
run_is s = binary eql (selector "nrs" "run_status") (selector "wfmodel" s)

abbrev node_is : String → Expr
node_is s = binary eql (selector "nrs" "node_status") (selector "wfmodel" s)

abbrev rule_of : NodeCmd → String → Expr → String → DependencyRule
rule_of cmd current run node = record {
  cmd = cmd;
  expression = binary land (binary land (is_current current) run) (node_is node);
}

abbrev start_or_none : Expr
start_or_none = binary lor (run_is "RunStart") (run_is "RunNone")

unfoldable pub default_rules : List DependencyRule
default_rules =
    rule_of node_go "true" (run_is "RunStart") "NodeBatchSuccess"
    ∷ rule_of node_wait "true" start_or_none "NodeBatchNone"
    ∷ rule_of node_wait "true" start_or_none "NodeBatchStart"
    ∷ rule_of node_nogo "true" (run_is "RunStart") "NodeBatchFail"
    ∷ rule_of node_go "false" (run_is "RunStart") "NodeBatchSuccess"
    ∷ rule_of node_wait "false" start_or_none "NodeBatchNone"
    ∷ rule_of node_wait "false" start_or_none "NodeBatchStart"
    ∷ rule_of node_go "false" (run_is "RunComplete") "NodeBatchSuccess"
    ∷ rule_of node_nogo "false" (run_is "RunComplete") "NodeBatchFail"
    ∷ record { cmd = node_nogo; expression = binary land (is_current "false") (run_is "RunStop") }
    ∷ []

-- "run_is_current(desc), run_id(desc)"
unfoldable pub default_policy : DependencyPolicyDef
unfolding default_rules
default_policy = record {
  rules = default_rules;
  order =
      record { field_name = "run_is_current"; sort_order = sort_desc; field_type = bool_field }
      ∷ record { field_name = "run_id"; sort_order = sort_desc; field_type = int_field }
      ∷ [];
}

abbrev pub command : Outcome → Option NodeCmd
command (matched cmd i) = some cmd
command _ = none

-- The decision that the rules are meant to make for one status, if they make one.
unfoldable pub default_decision : NodeRunStatus → Option NodeCmd
default_decision e =
    if not e.run_is_current && int_eq e.run_status run_stop
    then some node_nogo
    else if int_eq e.node_status node_batch_success
    then if int_eq e.run_status run_start
        || (not e.run_is_current && int_eq e.run_status run_complete)
      then some node_go
      else none
    else if int_eq e.node_status node_batch_fail
    then if int_eq e.run_status (if e.run_is_current then run_start else run_complete)
      then some node_nogo
      else none
    else if int_eq e.node_status node_batch_none || int_eq e.node_status node_batch_start
    then if int_eq e.run_status run_start || int_eq e.run_status run_none
      then some node_wait
      else none
    else none

abbrev pub status_with : ℤ → Bool → ℤ → ℤ → NodeRunStatus
status_with id current r n = record {
  run_id = id;
  run_is_current = current;
  run_status = r;
  node_status = n;
}

decision_with :
    (id : ℤ) (current : Bool) (r n : ℤ)
    → command
        (check_rules (dependency_checker_node_vars (status_with id current r n)) default_rules 0)
      ≡ default_decision (status_with id current r n)
unfolding check_rules dependency_checker_node_vars default_rules eval default_decision
decision_with id true r n = ground arith
decision_with id false r n = ground arith

-- The ten rules of the default policy, tried in their order on one node status, make this decision:
-- an earlier run that was stopped is a nogo; a node that succeeded is a go while its run is in
-- progress, and for an earlier run also when it is complete; a node that failed is a nogo in the
-- current run while it is in progress and in an earlier run when it is complete; a node that has
-- not ended is waited for while its run is in progress or not started; nothing else matches.
pub default_rules-decision :
    (e : NodeRunStatus)
    → command (check_rules (dependency_checker_node_vars e) default_rules 0) ≡ default_decision e
default_rules-decision e = decision_with e.run_id e.run_is_current e.run_status e.node_status
