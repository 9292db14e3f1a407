-- ===== src/Examples/Policies.antt =====
-- Runs of the dependency policy, pkg/dpc.
use capillaries.Prelude.{
  ◌≡◌, refl, Bool, true, false, Option, some, List, [], ◌∷◌, ◌++◌, ◌⊎◌, Any, All, arith,
}
use capillaries.Prelude.Int.{ℤ, pos, negsuc}
use capillaries.Prelude.Text.{text_lt}
use capillaries.Wfmodel.Status.{run_complete, run_start, node_batch_success, node_batch_none}
use capillaries.Dpc.Expr.{Attributes, int64_val}
use capillaries.Dpc.Key.{IdxComponentDef, sort_desc, int_field, int_key, descending_key, build_key}
use capillaries.Dpc.KeyOrder.{record_before, build_key-order}
use capillaries.Dpc.FirstMatch.{IsMachineStatus, Decides, IsAssumedWait, verdict-Decides}
use capillaries.Dpc.Policy.{
  node_go, node_wait, NodeRunStatus, Verdict, verdict, dependency_checker_node_vars, check_rules,
  check_dependency_policy,
}
use capillaries.Dpc.Default.{
  command, default_rules, default_policy, default_decision, default_rules-decision,
}
use capillaries.Dpc.Go.{IsSuccess, default_policy-go}

-- An earlier run that is complete and whose node succeeded.
abbrev earlier : NodeRunStatus
earlier = record {
  run_id = pos 1;
  run_is_current = false;
  run_status = run_complete;
  node_status = node_batch_success;
}

abbrev go_on_earlier : Verdict
go_on_earlier = record { cmd = node_go; run_id = pos 1; rule_idx = pos 7 }

checked_earlier : check_dependency_policy default_policy (earlier ∷ []) ≡ verdict go_on_earlier
unfolding check_dependency_policy default_policy capillaries.Dpc.Key.build_key
    capillaries.Prelude.Sort.sort_func
checked_earlier = refl

default_rules-decision_example :
    command (check_rules (dependency_checker_node_vars earlier) default_rules 0)
    ≡ default_decision earlier
default_rules-decision_example = default_rules-decision earlier

default_policy-go_example : Any (IsSuccess go_on_earlier) (earlier ∷ [])
default_policy-go_example = default_policy-go (earlier ∷ []) go_on_earlier checked_earlier refl

-- The run itself, whose node has not started.
abbrev current : NodeRunStatus
current = record {
  run_id = pos 2;
  run_is_current = true;
  run_status = run_start;
  node_status = node_batch_none;
}

abbrev wait_for_current : Verdict
wait_for_current = record { cmd = node_wait; run_id = pos 2; rule_idx = pos 1 }

current_first :
    check_dependency_policy default_policy (earlier ∷ current ∷ []) ≡ verdict wait_for_current
unfolding check_dependency_policy build_key default_policy capillaries.Prelude.Sort.sort_func
    text_lt
current_first = refl

machine_statuses : All IsMachineStatus (earlier ∷ current ∷ [])
machine_statuses = (
  (
    (omega arith, omega arith),
    (tt, ((omega arith, omega arith), ((omega arith, omega arith), tt))),
  ),
  (
    (
      (omega arith, omega arith),
      (tt, ((omega arith, omega arith), ((omega arith, omega arith), tt))),
    ),
    tt,
  ),
)

verdict-Decides_example :
    Any (Decides default_policy (earlier ∷ current ∷ []) wait_for_current) (earlier ∷ current ∷ [])
    ⊎ IsAssumedWait default_policy (earlier ∷ current ∷ []) wait_for_current
verdict-Decides_example =
    verdict-Decides default_policy (earlier ∷ current ∷ []) wait_for_current machine_statuses
      current_first

abbrev by_n : List IdxComponentDef
by_n = record { field_name = "n"; sort_order = sort_desc; field_type = int_field } ∷ []

abbrev number : ℤ → Attributes
number n = ("n", int64_val n) ∷ []

built : (n : ℤ) → build_key (number n) by_n ≡ some (descending_key (int_key n) ++ [])
unfolding build_key
built n = refl

build_key-order_example :
    text_lt (descending_key (int_key (negsuc 6)) ++ []) (descending_key (int_key (pos 12)) ++ [])
    ≡ record_before (number (negsuc 6)) (number (pos 12)) by_n
build_key-order_example =
    build_key-order by_n (number (negsuc 6)) (number (pos 12))
      (descending_key (int_key (negsuc 6)) ++ []) (descending_key (int_key (pos 12)) ++ [])
      ((omega arith, omega arith), tt) ((omega arith, omega arith), tt) (built (negsuc 6))
      (built (pos 12))
