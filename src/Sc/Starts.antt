-- ===== src/Sc/Starts.antt =====
-- The loops of GetAffectedNodes of pkg/sc/script_def.go over the start nodes.
use mathlib.Core.Path.{subst}
use capillaries.Prelude.{
  Option-cases, ◌≡◌, refl, ap, List, [], ◌∷◌, Option, some, Any, arith, inl, inr,
}
use capillaries.Prelude.Text.{Text}
use capillaries.Sc.Affected.{GraphNode, NameSet, find_node, start_loop, run_option}
use capillaries.Sc.Visits.{◌⊆◌, run_option-eq_some}

same_node :
    (j k : Text) (a b : GraphNode) (nodes : List GraphNode)
    → j ≡ k
    → find_node j nodes ≡ some a
    → find_node k nodes ≡ some b
    → a ≡ b
same_node j k a b nodes e h g = ground (arith, ap (λ i. find_node i nodes) e)

-- The loops over the start nodes.
module _ (visit : GraphNode → NameSet → Option NameSet) (nodes : List GraphNode) where
  pub start_loop_ind :
      (start : List Text) (P : NameSet → Type 0) (s t : NameSet)
      → ((k : Text) (node : GraphNode) (u v : NameSet)
          → Any (λ j. j ≡ k) start
          → find_node k nodes ≡ some node
          → P u
          → visit node u ≡ some v
          → P v)
      → P s
      → start_loop visit nodes start s ≡ some t
      → P t
  unfolding start_loop
  start_loop_ind [] P s t step p h = subst P (ground arith) p
  start_loop_ind (k ∷ start) P s t step p h = elim (Option-cases (find_node k nodes)) [
    | inl n ↦ start_loop_ind start P s t (λ j node u v m. step j node u v (inr m)) p (ground arith)
    | inr found ↦
        let split =
          run_option-eq_some (visit found.0 s) (start_loop visit nodes start) t
            (ground (arith, found)) in
        start_loop_ind start P split.0 t (λ j node u v m. step j node u v (inr m))
          (step k found.0 s split.0 (inl refl) found.1 p split.1) split.2
  ]

  pub start_loop-covers :
      (start : List Text) (Covers : GraphNode → NameSet → Type 0) (s t : NameSet)
      → ((node : GraphNode) (u v : NameSet) → visit node u ≡ some v → (u ⊆ v) × Covers node v)
      → ((node : GraphNode) (u v : NameSet) → u ⊆ v → Covers node u → Covers node v)
      → start_loop visit nodes start s ≡ some t
      → (k : Text) (node : GraphNode) → Any (λ j. j ≡ k) start
      → find_node k nodes ≡ some node
      → Covers node t
  unfolding start_loop
  start_loop-covers [] Covers s t step keep h k node m e = absurd m
  start_loop-covers (j ∷ start) Covers s t step keep h k node m e =
      elim (Option-cases (find_node j nodes)) [
        | inl n ↦ elim m [
          | inl same ↦ absurd (ground (arith, ap (λ i. find_node i nodes) same))
          | inr later ↦ start_loop-covers start Covers s t step keep (ground arith) k node later e
        ]
        | inr found ↦
            let split =
              run_option-eq_some (visit found.0 s) (start_loop visit nodes start) t
                (ground (arith, found)) in
            elim m [
              | inl same ↦
                  start_loop_ind start (Covers node) split.0 t
                    (λ _ x u w _ _ c h'. keep node u w (step x u w h').0 c)
                    (subst (λ x. Covers x split.0) (same_node j k found.0 node nodes same found.1 e)
                      (step found.0 s split.0 split.1).1)
                    split.2
              | inr later ↦
                  start_loop-covers start Covers split.0 t step keep split.2 k node later e
            ]
      ]

  pub start_loop-ends :
      (start : List Text) (s : NameSet)
      → ((k : Text) (node : GraphNode) (u : NameSet)
          → find_node k nodes ≡ some node
          → (v : NameSet) × (visit node u ≡ some v))
      → (t : NameSet) × (start_loop visit nodes start s ≡ some t)
  unfolding start_loop run_option
  start_loop-ends [] s ends = (s, refl)
  start_loop-ends (k ∷ start) s ends = elim (Option-cases (find_node k nodes)) [
    | inl n ↦ let rest = start_loop-ends start s ends in (rest.0, ground (arith, rest))
    | inr found ↦
        let first = ends k found.0 s found.1 in
        let rest = start_loop-ends start first.0 ends in
        (rest.0, ground (arith, found, first, rest))
  ]
