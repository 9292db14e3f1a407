-- ===== src/Sc/Visits.antt =====
-- The recursive visits of nodes in pkg/sc/script_def.go: what is added to the set, and that enough
-- fuel lets a visit end.
use capillaries.Prelude.{
  ℕ, ◌<◌, ◌≡◌, refl, ap, Bool, true, List, [], ◌∷◌, Option, none, some, Any, arith, inl, inr, ◌⊎◌,
  Bool-cases,
}
use mathlib.Core.Path.{subst}
use capillaries.Prelude.Text.{Text, text_eq, text_eq_refl, eq_of_text_eq}
use capillaries.Sc.Affected.{
  is_child, GraphNode, NameSet, children_loop, insert, member, run_option,
}

infix 50 ◌⊆◌
abbrev pub ◌⊆◌ : NameSet → NameSet → Type 0
s ⊆ t = (k : Text) → member k s ≡ true → member k t ≡ true

pub ⊆_trans : (s t u : NameSet) → s ⊆ t → t ⊆ u → s ⊆ u
⊆_trans s t u h g k m = g k (h k m)

pub member-insert : (k : Text) (s : NameSet) → member k (insert k s) ≡ true
unfolding member insert
member-insert k s = ground (arith, text_eq_refl k)

pub insert-⊆ : (k : Text) (s : NameSet) → s ⊆ insert k s
unfolding member insert
insert-⊆ k s j m = ground arith

pub member_of_insert :
    (j k : Text) (s : NameSet) → member j (insert k s) ≡ true → (member j s ≡ true) ⊎ (k ≡ j)
unfolding member insert
member_of_insert j k s m = elim (Bool-cases (member k s)) [
  | inl e ↦ inl (ground arith)
  | inr e ↦ elim (Bool-cases (text_eq k j)) [
    | inl t ↦ inr (eq_of_text_eq k j t)
    | inr f ↦ inl (ground arith)
  ]
]

-- A node that a chain of edges joins to a target.
pub data Above (nodes : List GraphNode) (edge : GraphNode → GraphNode → Bool) (target : GraphNode)
    : GraphNode → Type 0 where
  direct :
      {root : GraphNode}
      → Any (λ n. n ≡ target) nodes
      → edge root target ≡ true
      → Above nodes edge target root
  deeper :
      {root : GraphNode} (node : GraphNode)
      → Any (λ n. n ≡ node) nodes
      → edge root node ≡ true
      → Above nodes edge target node
      → Above nodes edge target root

-- A rank of the nodes of a script that edges lower.
abbrev pub IsLowered : List GraphNode → (GraphNode → ℕ) → Type 0
IsLowered nodes rank =
    (r n : GraphNode)
    → Any (λ m. m ≡ r) nodes
    → Any (λ m. m ≡ n) nodes
    → is_child r n ≡ true
    → rank n < rank r

-- A result that is there was returned by the first step and the second one.
pub run_option-eq_some :
    {A B : Type 0} (o : Option A) (next : A → Option B) (b : B)
    → run_option o next ≡ some b
    → (a : A) × (o ≡ some a) × (next a ≡ some b)
unfolding run_option
run_option-eq_some none next b h = cc
run_option-eq_some (some a) next b h = (a, refl, h)

module _ (visits : GraphNode → Bool) (change : GraphNode → NameSet → NameSet)
    (visit : GraphNode → NameSet → Option NameSet) where
  -- A loop that ends gives a set that it has grown step by step.
  pub children_loop_ind :
      (nodes : List GraphNode) (P : NameSet → Type 0) (s t : NameSet)
      → ((node : GraphNode) (u v : NameSet)
          → Any (λ n. n ≡ node) nodes
          → visits node ≡ true
          → P u
          → visit node (change node u) ≡ some v
          → P v)
      → P s
      → children_loop visits change visit nodes s ≡ some t
      → P t
  unfolding children_loop
  children_loop_ind [] P s t step p h = subst P (ground arith) p
  children_loop_ind (node ∷ nodes) P s t step p h = elim (Bool-cases (visits node)) [
    | inl e ↦
        let split =
          run_option-eq_some (visit node (change node s)) (children_loop visits change visit nodes)
            t (ground arith) in
        children_loop_ind nodes P split.0 t (λ n u v m e' p' h'. step n u v (inr m) e' p' h')
          (step node s split.0 (inl refl) e p split.1) split.2
    | inr f ↦
        children_loop_ind nodes P s t (λ n u v m e' p' h'. step n u v (inr m) e' p' h') p
          (ground arith)
  ]

  -- What holds of each visited node after its visit, and is kept as the set grows, holds at the end.
  pub children_loop-covers :
      (nodes : List GraphNode) (Covers : GraphNode → NameSet → Type 0) (s t : NameSet)
      → ((node : GraphNode) (u v : NameSet)
          → visits node ≡ true
          → visit node (change node u) ≡ some v
          → (u ⊆ v) × Covers node v)
      → ((node : GraphNode) (u v : NameSet) → u ⊆ v → Covers node u → Covers node v)
      → children_loop visits change visit nodes s ≡ some t
      → (node : GraphNode) → Any (λ n. n ≡ node) nodes
      → visits node ≡ true
      → Covers node t
  unfolding children_loop
  children_loop-covers [] Covers s t step keep h node m e = absurd m
  children_loop-covers (n ∷ nodes) Covers s t step keep h node m e = elim (Bool-cases (visits n)) [
    | inl v ↦
        let split =
          run_option-eq_some (visit n (change n s)) (children_loop visits change visit nodes) t
            (ground arith) in
        elim m [
          | inl same ↦
              subst (λ x. Covers x t) same
                (children_loop_ind nodes (Covers n) split.0 t
                  (λ x u w _ e' c h'. keep n u w (step x u w e' h').0 c)
                  (step n s split.0 v split.1).1 split.2)
          | inr later ↦ children_loop-covers nodes Covers split.0 t step keep split.2 node later e
        ]
    | inr f ↦ elim m [
      | inl same ↦ absurd (ground (arith, ap visits same))
      | inr later ↦ children_loop-covers nodes Covers s t step keep (ground arith) node later e
    ]
  ]

  -- A loop whose visits end ends.
  pub children_loop-ends :
      (nodes : List GraphNode) (s : NameSet)
      → ((node : GraphNode) (u : NameSet)
          → Any (λ n. n ≡ node) nodes
          → visits node ≡ true
          → (v : NameSet) × (visit node u ≡ some v))
      → (t : NameSet) × (children_loop visits change visit nodes s ≡ some t)
  unfolding children_loop run_option
  children_loop-ends [] s ends = (s, refl)
  children_loop-ends (node ∷ nodes) s ends = elim (Bool-cases (visits node)) [
    | inl e ↦
        let first = ends node (change node s) (inl refl) e in
        let rest = children_loop-ends nodes first.0 (λ n u m. ends n u (inr m)) in
        (rest.0, ground (arith, first, rest))
    | inr f ↦
        let rest = children_loop-ends nodes s (λ n u m. ends n u (inr m)) in
        (rest.0, ground (arith, rest))
  ]
