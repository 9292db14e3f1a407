-- ===== src/Dpc/Go.antt =====
-- When the default dependency policy of pkg/sc/dependency_policy_def.go lets a node run.
use capillaries.Prelude.{◌≡◌, arith, true, List, [], ◌∷◌, inl, inr, All, Any, All-get_elem?}
use capillaries.Prelude.Int.{int_eq}
use capillaries.Wfmodel.Status.{node_batch_success}
use capillaries.Dpc.Expr.{value, bool_val, eval}
use capillaries.Dpc.Policy.{
  node_go, DependencyRule, NodeRunStatus, Verdict, verdict, dependency_checker_node_vars,
  check_dependency_policy,
}
use capillaries.Dpc.Default.{default_rules, default_policy}
use capillaries.Dpc.Soundness.{Supports, verdict-Supports}

abbrev GoNeedsSuccess : DependencyRule → Type 0
GoNeedsSuccess r =
    r.cmd ≡ node_go
    → (e : NodeRunStatus)
    → eval (dependency_checker_node_vars e) r.expression ≡ value (bool_val true)
    → int_eq e.node_status node_batch_success ≡ true

default_rules-GoNeedsSuccess : All GoNeedsSuccess default_rules
unfolding default_rules eval dependency_checker_node_vars
default_rules-GoNeedsSuccess = (
  (λ _ e h. ground arith),
  (
    (λ c. cc),
    (
      (λ c. cc),
      (
        (λ c. cc),
        (
          (λ _ e h. ground arith),
          ((λ c. cc), ((λ c. cc), ((λ _ e h. ground arith), ((λ c. cc), ((λ c. cc), tt))))),
        ),
      ),
    ),
  ),
)

-- The run of the verdict is one whose node succeeded.
abbrev pub IsSuccess : Verdict → NodeRunStatus → Type 0
IsSuccess v e = (e.run_id ≡ v.run_id) × (int_eq e.node_status node_batch_success ≡ true)

Supports-IsSuccess :
    (v : Verdict) (e : NodeRunStatus) → Supports default_rules v e → v.cmd ≡ node_go → IsSuccess v e
Supports-IsSuccess v e s hc = (
  ground (arith, s.is_verdict),
  All-get_elem? GoNeedsSuccess s.index default_rules s.rule s.at_index default_rules-GoNeedsSuccess
      (ground (arith, s.is_verdict, hc)) e s.holds,
)

Any-IsSuccess :
    (v : Verdict) (l : List NodeRunStatus)
    → v.cmd ≡ node_go
    → Any (Supports default_rules v) l
    → Any (IsSuccess v) l
Any-IsSuccess v [] hc a = elim a [ ]
Any-IsSuccess v (e ∷ l) hc (inl s) = inl (Supports-IsSuccess v e s hc)
Any-IsSuccess v (e ∷ l) hc (inr a) = inr (Any-IsSuccess v l hc a)

-- Under the default policy a node may run only if the node it depends on has succeeded in the run
-- that the verdict names.
pub default_policy-go :
    (statuses : List NodeRunStatus) (v : Verdict)
    → check_dependency_policy default_policy statuses ≡ verdict v
    → v.cmd ≡ node_go
    → Any (IsSuccess v) statuses
unfolding default_policy
default_policy-go statuses v h hc = elim (verdict-Supports default_policy statuses v h) [
  | inl a ↦ Any-IsSuccess v statuses hc a
  | inr w ↦ ground (arith, w.0, hc)
]
