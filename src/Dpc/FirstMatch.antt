-- ===== src/Dpc/FirstMatch.antt =====
-- Which status decides in pkg/dpc/dependency_policy_checker.go: the first one, in the order of the
-- policy, that a rule is true of.
use mathlib.Core.Path.{subst}
use capillaries.Prelude.{
  ◌≡◌, refl, ◌∙◌, ℕ, zero, suc, ◌+◌, false, arith, true, some, List, [], ◌∷◌, inl, inr, ◌⊎◌, Any,
  All, All-map, Option-cases, Any-map,
}
use capillaries.Prelude.Int.{negsuc}
use capillaries.Prelude.Text.{Text, text_lt, text_lt_asymm, text_ge_trans}
use capillaries.Prelude.Sort.{
  sort_func, IsSorted, IsStrictWeak, sort_func-IsSorted, All-of_sort_func,
}
use capillaries.Dpc.Key.{IdxComponentDef, build_key}
use capillaries.Dpc.KeyOrder.{IsMachine, record_before, build_key-order}
use capillaries.Dpc.Expr.{Eval, value, failed, bool_val, int64_val, Vars, eval}
use capillaries.Dpc.Policy.{
  rule_outcome, event_checked, NodeCmd, node_wait, DependencyRule, DependencyPolicyDef,
  NodeRunStatus, Verdict, Checked, verdict, KeyedStatus, key_before, Outcome, matched, unmatched,
  broken, dependency_checker_node_vars, nrs_attributes, assume_wait, check_keyed, with_keys,
  check_rules, check_events, check_dependency_policy,
}
use capillaries.Dpc.Soundness.{Supports, matched-Supports, assume_wait-waits, Any-sort_func}

Outcome-cases :
    (o : Outcome)
    → (o ≡ unmatched)
      ⊎ ((cmd : NodeCmd) × (i : ℕ) × (o ≡ matched cmd i))
      ⊎ ((x : _) × (o ≡ broken x))
Outcome-cases unmatched = inl refl
Outcome-cases (matched cmd i) = inr (inl (cmd, i, refl))
Outcome-cases (broken x) = inr (inr (x, refl))

-- The expression of the rule is false.
abbrev IsFalse : Vars → DependencyRule → Type 0
IsFalse vars r = eval vars r.expression ≡ value (bool_val false)

-- Each rule is false of the status.
abbrev pub Passed : List DependencyRule → NodeRunStatus → Type 0
Passed rules e = All (IsFalse (dependency_checker_node_vars e)) rules

-- The rule with an index is true, and each rule before it is false.
abbrev pub FirstTrue : Vars → List DependencyRule → ℕ → Type 0
FirstTrue vars [] n = ⊥
FirstTrue vars (r ∷ rules) zero = eval vars r.expression ≡ value (bool_val true)
FirstTrue vars (r ∷ rules) (suc n) = IsFalse vars r × FirstTrue vars rules n

module _ (vars : Vars) where
  rule_outcome-unmatched :
      (cmd : NodeCmd) (i : ℕ) (v : Eval) (rest : Outcome)
      → rule_outcome cmd i v rest ≡ unmatched
      → (v ≡ value (bool_val false)) × (rest ≡ unmatched)
  rule_outcome-unmatched cmd i (failed e) rest h = cc
  rule_outcome-unmatched cmd i (value (int64_val n)) rest h = cc
  rule_outcome-unmatched cmd i (value (bool_val false)) rest h = (refl, h)
  rule_outcome-unmatched cmd i (value (bool_val true)) rest h = cc

  check_rules-unmatched :
      (rules : List DependencyRule) (i : ℕ)
      → check_rules vars rules i ≡ unmatched
      → All (IsFalse vars) rules
  unfolding check_rules
  check_rules-unmatched [] i h = tt
  check_rules-unmatched (r ∷ rules) i h =
      let c =
        rule_outcome-unmatched r.cmd i (eval vars r.expression) (check_rules vars rules (suc i))
          h in
      (c.0, check_rules-unmatched rules (suc i) c.1)

  rule_outcome-matched :
      (cmd c : NodeCmd) (i j : ℕ) (v : Eval) (rest : Outcome)
      → rule_outcome cmd i v rest ≡ matched c j
      → ((v ≡ value (bool_val true)) × (j ≡ i))
        ⊎ ((v ≡ value (bool_val false)) × (rest ≡ matched c j))
  rule_outcome-matched cmd c i j (failed e) rest h = cc
  rule_outcome-matched cmd c i j (value (int64_val n)) rest h = cc
  rule_outcome-matched cmd c i j (value (bool_val false)) rest h = inr (refl, h)
  rule_outcome-matched cmd c i j (value (bool_val true)) rest h = inl (refl, ground arith)

  check_rules-FirstTrue :
      (c : NodeCmd) (j : ℕ) (rules : List DependencyRule) (i : ℕ)
      → check_rules vars rules i ≡ matched c j
      → (n : ℕ) × (j ≡ i + n) × FirstTrue vars rules n
  unfolding check_rules
  check_rules-FirstTrue c j [] i h = cc
  check_rules-FirstTrue c j (r ∷ rules) i h =
      elim (rule_outcome-matched r.cmd c i j (eval vars r.expression)
        (check_rules vars rules (suc i)) h) [
          | inl t ↦ (0, omega (arith, t.1), t.0)
          | inr f ↦
              let rest = check_rules-FirstTrue c j rules (suc i) f.1 in
              (suc rest.0, omega (arith, rest.1), (f.0, rest.2))
        ]

key_before-IsStrictWeak : IsStrictWeak key_before
key_before-IsStrictWeak = record {
  asymm = λ a b h. text_lt_asymm a.sort_key b.sort_key h;
  ge_trans = λ a b c h k. text_ge_trans a.sort_key b.sort_key c.sort_key h k;
}

irreflexive : (e : KeyedStatus) → key_before e e ≡ true → ⊥
irreflexive e h = ground (arith, text_lt_asymm e.sort_key e.sort_key)

-- The status has the key that is built for it.
abbrev HasKey : List IdxComponentDef → KeyedStatus → Type 0
HasKey order k = build_key (nrs_attributes k.status) order ≡ some k.sort_key

with_keys-cons :
    (order : List IdxComponentDef) (e : NodeRunStatus) (es : List NodeRunStatus)
    (keyed : List KeyedStatus)
    → with_keys order (e ∷ es) ≡ some keyed
    → (k : Text) × (l : List KeyedStatus) × (build_key (nrs_attributes e) order ≡ some k)
      × (with_keys order es ≡ some l)
      × (keyed ≡ record { status = e; sort_key = k } ∷ l)
unfolding with_keys
with_keys-cons order e es keyed h = elim (Option-cases (build_key (nrs_attributes e) order)) [
  | inl a ↦ absurd (ground arith)
  | inr (k, a) ↦ elim (Option-cases (with_keys order es)) [
    | inl b ↦ absurd (ground arith)
    | inr (l, b) ↦ (k, l, a, b, ground arith)
  ]
]

-- Each status has a place in the list with keys, and each place is that of a status.
with_keys-All :
    (order : List IdxComponentDef) (P : KeyedStatus → Type 0) (es : List NodeRunStatus)
    (keyed : List KeyedStatus)
    → with_keys order es ≡ some keyed
    → All P keyed
    → All
        (λ e.
          (k : Text) × HasKey order (record { status = e; sort_key = k })
          × P (record { status = e; sort_key = k }))
        es
with_keys-All order P [] keyed h a = tt
with_keys-All order P (e ∷ es) keyed h a =
    let c = with_keys-cons order e es keyed h in
    let b = subst (All P) c.4 a in ((c.0, c.2, b.0), with_keys-All order P es c.1 c.3 b.1)

with_keys-Any :
    (order : List IdxComponentDef) (P : KeyedStatus → Type 0) (es : List NodeRunStatus)
    (keyed : List KeyedStatus)
    → with_keys order es ≡ some keyed
    → Any P keyed
    → Any
        (λ e.
          (k : Text) × HasKey order (record { status = e; sort_key = k })
          × P (record { status = e; sort_key = k }))
        es
unfolding with_keys
with_keys-Any order P [] keyed h a =
    let eq : keyed ≡ [] = ground (arith, h) in elim (subst (Any P) eq a) [ ]
with_keys-Any order P (e ∷ es) keyed h a =
    let c = with_keys-cons order e es keyed h in
    elim (subst (Any P) c.4 a) [
      | inl p ↦ inl (c.0, c.2, p)
      | inr b ↦ inr (with_keys-Any order P es c.1 c.3 b)
    ]

module _ (rules : List DependencyRule) (v : Verdict) where
  -- The verdict is that of the first rule that is true of the status.
  abbrev pub Gives : NodeRunStatus → Type 0
  Gives e = (s : Supports rules v e) × FirstTrue (dependency_checker_node_vars e) rules s.index

  matched-Gives :
      (e : NodeRunStatus) (cmd : NodeCmd) (i : ℕ) (rest : Checked)
      → check_rules (dependency_checker_node_vars e) rules 0 ≡ matched cmd i
      → event_checked e (matched cmd i) rest ≡ verdict v
      → Gives e
  matched-Gives e cmd i rest m h =
      let s = matched-Supports rules v e cmd i rest m h in
      let first = check_rules-FirstTrue (dependency_checker_node_vars e) cmd i rules 0 m in
      let same : i ≡ s.index = ground (arith, h, s.is_verdict) in
      (
        s,
        subst (FirstTrue (dependency_checker_node_vars e) rules) (omega (arith, first.1, same))
            first.2,
      )

  -- The status gives the verdict, and each rule is false of a status whose key is smaller.
  abbrev Leads : List KeyedStatus → KeyedStatus → Type 0
  Leads es e = Gives e.status × All (λ x. key_before x e ≡ true → Passed rules x.status) es

  none_before :
      (e : KeyedStatus) (es : List KeyedStatus)
      → All (λ x. key_before x e ≡ false) es
      → All (λ x. key_before x e ≡ true → Passed rules x.status) es
  none_before e es h =
      All-map (λ x. key_before x e ≡ false) (λ x. key_before x e ≡ true → Passed rules x.status)
        (λ x p q. ground (arith, p, q)) es h

  check_events-Leads :
      (es : List KeyedStatus) (first : Checked)
      → IsSorted key_before es
      → check_events rules es first ≡ verdict v
      → Any (Leads es) es ⊎ ((first ≡ verdict v) × All (λ x. Passed rules x.status) es)
  unfolding check_events
  check_events-Leads [] first s h = inr (h, tt)
  check_events-Leads (e ∷ es) first s h =
      elim (Outcome-cases (check_rules (dependency_checker_node_vars e.status) rules 0)) [
        | inl u ↦
            let passes = check_rules-unmatched (dependency_checker_node_vars e.status) rules 0 u in
            elim (check_events-Leads es first s.1 cc) [
              | inl a ↦ inl (
                  inr
                    (Any-map (Leads es) (Leads (e ∷ es)) (λ x l. (l.0, ((λ _. passes), l.1))) es a))
              | inr f ↦ inr (f.0, (passes, f.1))
            ]
        | inr (inl (cmd, i, m)) ↦ inl (
            inl (
              matched-Gives e.status cmd i (check_events rules es first) m cc,
              ((λ q. absurd (irreflexive e q)), none_before e es s.0),
            ))
        | inr (inr (x, b)) ↦ absurd cc
      ]

-- The values that the keys are built from are int64.
abbrev pub IsMachineStatus : NodeRunStatus → Type 0
IsMachineStatus e = All (λ a. IsMachine a.1) (nrs_attributes e)

-- The verdict is that of the first rule that is true of the status, and each rule is false of a
-- status that comes before it in the order of the policy.
abbrev pub Decides : DependencyPolicyDef → List NodeRunStatus → Verdict → NodeRunStatus → Type 0
Decides policy statuses v e =
    Gives policy.rules v e
    × All
        (λ x.
          record_before (nrs_attributes x) (nrs_attributes e) policy.order ≡ true
          → Passed policy.rules x)
        statuses

-- The wait that is assumed when each rule is false of each status.
abbrev pub IsAssumedWait : DependencyPolicyDef → List NodeRunStatus → Verdict → Type 0
IsAssumedWait policy statuses v =
    All (Passed policy.rules) statuses × (v.cmd ≡ node_wait) × (v.rule_idx ≡ negsuc 0)

All-both : {A : Type 0} (P Q : A → Type 0) (l : List A) → All P l → All Q l → All (λ x. P x × Q x) l
All-both P Q [] p q = tt
All-both P Q (x ∷ l) p q = ((p.0, q.0), All-both P Q l p.1 q.1)

Any-both : {A : Type 0} (P Q : A → Type 0) (l : List A) → All P l → Any Q l → Any (λ x. P x × Q x) l
Any-both P Q [] p q = q
Any-both P Q (x ∷ l) p (inl q) = inl (p.0, q)
Any-both P Q (x ∷ l) p (inr q) = inr (Any-both P Q l p.1 q)

module _ (policy : DependencyPolicyDef) (statuses : List NodeRunStatus) (v : Verdict)
    (keyed : List KeyedStatus) where
  abbrev sorted : List KeyedStatus
  sorted = sort_func key_before keyed

  -- What the order of the keys says is what the order of the statuses says.
  Leads-Decides :
      All IsMachineStatus statuses
      → with_keys policy.order statuses ≡ some keyed
      → (e : NodeRunStatus) (k : Text) → IsMachineStatus e
      → HasKey policy.order (record { status = e; sort_key = k })
      → Leads policy.rules v sorted (record { status = e; sort_key = k })
      → Decides policy statuses v e
  Leads-Decides m a e k me he l =
      let passes : KeyedStatus → Type 0 =
        λ x. text_lt x.sort_key k ≡ true → Passed policy.rules x.status in
      let back =
        with_keys-All policy.order passes statuses keyed a
          (All-of_sort_func key_before passes keyed l.1) in
      (
        l.0,
        All-map _ _
            (λ x (mx, (kx, hx, f)) b. f (
              build_key-order policy.order (nrs_attributes x) (nrs_attributes e) kx k mx me hx he
              ∙ b))
            statuses (All-both IsMachineStatus _ statuses m back),
      )

-- Each verdict of CheckDependencyPolicyAgainstNodeEventList has the command and the index of the first
-- rule that is true of the first status, in the order of the policy, that a rule is true of, and the
-- run of that status; or it is the wait with rule index -1, and each rule is false of each status. The
-- values of the statuses are int64.
pub verdict-Decides :
    (policy : DependencyPolicyDef) (statuses : List NodeRunStatus) (v : Verdict)
    → All IsMachineStatus statuses
    → check_dependency_policy policy statuses ≡ verdict v
    → Any (Decides policy statuses v) statuses ⊎ IsAssumedWait policy statuses v
unfolding check_dependency_policy check_keyed
verdict-Decides policy statuses v m h = elim (Option-cases (with_keys policy.order statuses)) [
  | inl a ↦ absurd (ground (arith, a, h))
  | inr (keyed, a) ↦
      let sorted = sort_func key_before keyed in
      elim (check_events-Leads policy.rules v sorted (assume_wait sorted)
        (sort_func-IsSorted key_before key_before-IsStrictWeak keyed) (cc (a, h))) [
          | inl l ↦ inl (
              Any-map _ (Decides policy statuses v)
                (λ e (me, (k, he, le)). Leads-Decides policy statuses v keyed m a e k me he le)
                statuses
                (Any-both IsMachineStatus _ statuses m (
                  with_keys-Any policy.order (Leads policy.rules v sorted) statuses keyed a
                    (Any-sort_func key_before (Leads policy.rules v sorted) keyed l))))
          | inr f ↦
              let waits = assume_wait-waits policy.rules v sorted f.0 in
              let passes : KeyedStatus → Type 0 = λ x. Passed policy.rules x.status in
              let back =
                with_keys-All policy.order passes statuses keyed a
                  (All-of_sort_func key_before passes keyed f.1) in
              inr (All-map _ (Passed policy.rules) (λ x b. b.2) statuses back, waits.0, waits.1)
        ]
]
