-- ===== src/Dpc/Soundness.antt =====
-- What a verdict of pkg/dpc/dependency_policy_checker.go rests on.
use mathlib.Core.Path.{subst}
use capillaries.Prelude.{
  ◌≡◌, refl, ℕ, suc, ◌+◌, arith, Bool, true, false, Option, none, some, List, [], ◌∷◌, inl, inr,
  ◌⊎◌, Any, All, get_elem?,
}
use capillaries.Prelude.Int.{pos, negsuc}
use capillaries.Prelude.Text.{Text}
use capillaries.Prelude.Sort.{sort_func, All-sort_func}
use capillaries.Dpc.Expr.{Eval, value, failed, bool_val, int64_val, Vars, eval}
use capillaries.Dpc.Key.{IdxComponentDef, build_key}
use capillaries.Dpc.Policy.{
  NodeCmd, node_wait, DependencyRule, DependencyPolicyDef, NodeRunStatus, Verdict, Checked, verdict,
  KeyedStatus, key_before, Outcome, matched, unmatched, broken, dependency_checker_node_vars,
  nrs_attributes, rule_outcome, event_checked, assume_wait, check_keyed, keyed_first, with_keys,
  check_rules, check_events, check_dependency_policy,
}

-- A rule of the policy, true of the status, says so.
pub record Supports (rules : List DependencyRule) (v : Verdict) (e : NodeRunStatus) : Type 0 where
  pub rule : DependencyRule
  pub index : ℕ
  pub at_index : get_elem? rules index ≡ some rule
  pub holds : eval (dependency_checker_node_vars e) rule.expression ≡ value (bool_val true)
  pub is_verdict : v ≡ record { cmd = rule.cmd; run_id = e.run_id; rule_idx = pos index }

-- The rule at offset `offset` from index `i` gave the outcome.
record Hit (vars : Vars) (rules : List DependencyRule) (i : ℕ) (cmd : NodeCmd) (j : ℕ)
    : Type 0 where
  rule : DependencyRule
  offset : ℕ
  at_offset : get_elem? rules offset ≡ some rule
  holds : eval vars rule.expression ≡ value (bool_val true)
  is_cmd : rule.cmd ≡ cmd
  is_index : j ≡ i + offset

module _ (vars : Vars) (cmd : NodeCmd) (j : ℕ) where
  Hit-later :
      (r : DependencyRule) (rules : List DependencyRule) (i : ℕ)
      → Hit vars rules (suc i) cmd j
      → Hit vars (r ∷ rules) i cmd j
  Hit-later r rules i h = record {
    rule = h.rule;
    offset = suc h.offset;
    at_offset = h.at_offset;
    holds = h.holds;
    is_cmd = h.is_cmd;
    is_index = omega (arith, h.is_index);
  }

  rule_outcome-Hit :
      (r : DependencyRule) (rules : List DependencyRule) (i : ℕ) (v : Eval) (rest : Outcome)
      → eval vars r.expression ≡ v
      → (rest ≡ matched cmd j → Hit vars rules (suc i) cmd j)
      → rule_outcome r.cmd i v rest ≡ matched cmd j
      → Hit vars (r ∷ rules) i cmd j
  rule_outcome-Hit r rules i (failed e) rest hv hr h = cc
  rule_outcome-Hit r rules i (value (int64_val n)) rest hv hr h = cc
  rule_outcome-Hit r rules i (value (bool_val false)) rest hv hr h = Hit-later r rules i (hr h)
  rule_outcome-Hit r rules i (value (bool_val true)) rest hv hr h = record {
    rule = r;
    offset = 0;
    at_offset = refl;
    holds = hv;
    is_cmd = cc;
    is_index = ground (arith, h);
  }

  check_rules-Hit :
      (rules : List DependencyRule) (i : ℕ)
      → check_rules vars rules i ≡ matched cmd j
      → Hit vars rules i cmd j
  unfolding check_rules
  check_rules-Hit [] i h = cc
  check_rules-Hit (r ∷ rules) i h =
      rule_outcome-Hit r rules i (eval vars r.expression) (check_rules vars rules (suc i)) refl
        (check_rules-Hit rules (suc i)) h

module _ (rules : List DependencyRule) (v : Verdict) where
  pub matched-Supports :
      (e : NodeRunStatus) (cmd : NodeCmd) (i : ℕ) (rest : Checked)
      → check_rules (dependency_checker_node_vars e) rules 0 ≡ matched cmd i
      → event_checked e (matched cmd i) rest ≡ verdict v
      → Supports rules v e
  matched-Supports e cmd i rest ho h =
      let hit = check_rules-Hit (dependency_checker_node_vars e) cmd i rules 0 ho in
      record {
        rule = hit.rule;
        index = hit.offset;
        at_index = hit.at_offset;
        holds = hit.holds;
        is_verdict = ground (arith, h, hit.is_cmd, hit.is_index);
      }

  event_checked-Supports :
      (e : NodeRunStatus) (o : Outcome) (rest : Checked) (C : Type 0)
      → check_rules (dependency_checker_node_vars e) rules 0 ≡ o
      → (rest ≡ verdict v → C)
      → event_checked e o rest ≡ verdict v
      → Supports rules v e ⊎ C
  event_checked-Supports e unmatched rest C ho hr h = inr (hr h)
  event_checked-Supports e (broken x) rest C ho hr h = cc
  event_checked-Supports e (matched cmd i) rest C ho hr h = inl (matched-Supports e cmd i rest ho h)

  check_events-Supports :
      (es : List KeyedStatus) (first : Checked)
      → check_events rules es first ≡ verdict v
      → Any (λ e. Supports rules v e.status) es ⊎ (first ≡ verdict v)
  unfolding check_events
  check_events-Supports [] first h = inr h
  check_events-Supports (e ∷ es) first h =
      elim (event_checked-Supports e.status
        (check_rules (dependency_checker_node_vars e.status) rules 0) (check_events rules es first)
        _ refl (check_events-Supports es first) h) [
          | inl s ↦ inl (inl s)
          | inr (inl s) ↦ inl (inr s)
          | inr (inr f) ↦ inr f
        ]

  pub assume_wait-waits :
      (es : List KeyedStatus)
      → assume_wait es ≡ verdict v
      → (v.cmd ≡ node_wait) × (v.rule_idx ≡ negsuc 0)
  assume_wait-waits [] h = cc
  assume_wait-waits (e ∷ es) h = (ground (arith, h), ground (arith, h))

All-into :
    {A : Type 0} (P : A → Type 0) (C : Type 0) (l : List A) → (Any P l → C) → All (λ x. P x → C) l
All-into P C [] f = tt
All-into P C (x ∷ l) f = ((λ p. f (inl p)), All-into P C l (λ a. f (inr a)))

Any-out :
    {A : Type 0} (P : A → Type 0) (C : Type 0) (l : List A) → All (λ x. P x → C) l → Any P l → C
Any-out P C [] h a = elim a [ ]
Any-out P C (x ∷ l) (f, fs) (inl p) = f p
Any-out P C (x ∷ l) (f, fs) (inr a) = Any-out P C l fs a

-- A sorted list has the elements of the list.
pub Any-sort_func :
    {A : Type 0} (less : A → A → Bool) (P : A → Type 0) (l : List A)
    → Any P (sort_func less l)
    → Any P l
Any-sort_func less P l a =
    Any-out P (Any P l) (sort_func less l)
      (All-sort_func less (λ x. P x → Any P l) l (All-into P (Any P l) l (λ a. a))) a

keyed_first-Any :
    (P : NodeRunStatus → Type 0) (e : NodeRunStatus) (es : List NodeRunStatus) (key : Option Text)
    (rest : Option (List KeyedStatus)) (keyed : List KeyedStatus)
    → ((l : List KeyedStatus) → rest ≡ some l → Any (λ k. P k.status) l → Any P es)
    → keyed_first e key rest ≡ some keyed
    → Any (λ k. P k.status) keyed
    → Any P (e ∷ es)
keyed_first-Any P e es none rest keyed hr h a = cc
keyed_first-Any P e es (some key) none keyed hr h a = cc
keyed_first-Any P e es (some key) (some l) keyed hr h a =
    let eq : keyed ≡ record { status = e; sort_key = key } ∷ l = ground (arith, h) in
    elim (subst (Any (λ k. P k.status)) eq a) [ inl p ↦ inl p | inr b ↦ inr (hr l refl b) ]

with_keys-Any :
    (P : NodeRunStatus → Type 0) (order : List IdxComponentDef) (es : List NodeRunStatus)
    (keyed : List KeyedStatus)
    → with_keys order es ≡ some keyed
    → Any (λ k. P k.status) keyed
    → Any P es
unfolding with_keys
with_keys-Any P order [] keyed h a =
    let eq : keyed ≡ [] = ground (arith, h) in elim (subst (Any (λ k. P k.status)) eq a) [ ]
with_keys-Any P order (e ∷ es) keyed h a =
    keyed_first-Any P e es (build_key (nrs_attributes e) order) (with_keys order es) keyed
      (with_keys-Any P order es) h a

check_keyed-Supports :
    (policy : DependencyPolicyDef) (statuses : List NodeRunStatus) (v : Verdict)
    (keyed : Option (List KeyedStatus))
    → with_keys policy.order statuses ≡ keyed
    → check_keyed policy keyed ≡ verdict v
    → Any (Supports policy.rules v) statuses ⊎ ((v.cmd ≡ node_wait) × (v.rule_idx ≡ negsuc 0))
unfolding check_keyed
check_keyed-Supports policy statuses v none hk h = cc
check_keyed-Supports policy statuses v (some keyed) hk h =
    let sorted = sort_func key_before keyed in
    elim (check_events-Supports policy.rules v sorted (assume_wait sorted) h) [
      | inl a ↦ inl (
          with_keys-Any (Supports policy.rules v) policy.order statuses keyed hk
            (Any-sort_func key_before (λ k. Supports policy.rules v k.status) keyed a))
      | inr f ↦ inr (assume_wait-waits policy.rules v sorted f)
    ]

-- A verdict has the command of a rule of the policy, the index of that rule and the run of one of
-- the statuses, and the rule's expression is true of that status; or it is the wait, with rule
-- index -1, that is assumed when no rule matched.
pub verdict-Supports :
    (policy : DependencyPolicyDef) (statuses : List NodeRunStatus) (v : Verdict)
    → check_dependency_policy policy statuses ≡ verdict v
    → Any (Supports policy.rules v) statuses ⊎ ((v.cmd ≡ node_wait) × (v.rule_idx ≡ negsuc 0))
unfolding check_dependency_policy
verdict-Supports policy statuses v h =
    check_keyed-Supports policy statuses v (with_keys policy.order statuses) refl h
