-- ===== src/Sc/Manual.antt =====
-- The set of manual nodes that addChildrenToManual of pkg/sc/script_def.go makes.
use capillaries.Prelude.{
  Any, ◌≡◌, Bool, true, false, not, ◌&&◌, ◌||◌, ◌<◌, ℕ, zero, suc, List, some, arith, if_ind,
}
use capillaries.Sc.Affected.{
  GraphNode, NameSet, add_children_to_manual, insert, is_child, member, note_manual,
}
use capillaries.Sc.Visits.{
  IsLowered, Above, direct, deeper, ◌⊆◌, ⊆_trans, children_loop-covers, children_loop-ends,
  children_loop_ind, insert-⊆, member-insert,
}

pub note_manual-⊆ : (b : Bool) (node : GraphNode) (s : NameSet) → s ⊆ note_manual b node s
unfolding note_manual
note_manual-⊆ b node s =
    if_ind (λ u. s ⊆ u) (b || node.start_manual) (insert node.name s) s (λ _. insert-⊆ node.name s)
      (λ _ k m. m)

member-note_manual :
    (b : Bool) (node : GraphNode) (s : NameSet)
    → node.start_manual ≡ true
    → member node.name (note_manual b node s) ≡ true
unfolding note_manual
member-note_manual true node s h = member-insert node.name s
member-note_manual false node s h = rw h (member-insert node.name s)

module _ (nodes : List GraphNode) (start_set : NameSet) where
  -- What addChildrenToManual notes at the children of a root.
  abbrev pub noted : GraphNode → NameSet → GraphNode → NameSet → NameSet
  noted root manual_set =
      note_manual (member root.name manual_set && not (member root.name start_set))

  pub manual-⊆ :
      (fuel : ℕ) (root : GraphNode) (s t : NameSet)
      → add_children_to_manual nodes start_set fuel root s ≡ some t
      → s ⊆ t
  unfolding add_children_to_manual
  manual-⊆ zero root s t h = cc
  manual-⊆ (suc fuel) root s t h =
      children_loop_ind (is_child root) (noted root s) (add_children_to_manual nodes start_set fuel)
        nodes (λ u. s ⊆ u) s t
        (λ node u v _ _ p e. ⊆_trans s u v p (
          ⊆_trans u (noted root s node u) v (note_manual-⊆ _ node u)
            (manual-⊆ fuel node (noted root s node u) v e)))
        (λ k m. m) h

  -- Each node with the manual start policy that edges lead to is added.
  pub manual_complete :
      (fuel : ℕ) (root target : GraphNode) (s t : NameSet)
      → add_children_to_manual nodes start_set fuel root s ≡ some t
      → Above nodes is_child target root
      → target.start_manual ≡ true
      → member target.name t ≡ true
  unfolding add_children_to_manual
  manual_complete zero root target s t h a p = cc
  manual_complete (suc fuel) root target s t h a p =
      let covered =
        children_loop-covers (is_child root) (noted root s)
          (add_children_to_manual nodes start_set fuel) nodes
          (λ node u.
            (node.start_manual ≡ true → member node.name u ≡ true)
            × ((m : GraphNode)
                → Above nodes is_child m node
                → m.start_manual ≡ true
                → member m.name u ≡ true))
          s t
          (λ node u v _ e.
            let grown = manual-⊆ fuel node (noted root s node u) v e in
            (
              ⊆_trans u (noted root s node u) v (note_manual-⊆ _ node u) grown,
              (
                λ q. grown node.name (member-note_manual _ node u q),
                λ m b q. manual_complete fuel node m (noted root s node u) v e b q,
              ),
            ))
          (λ node u v g c. (λ q. g node.name (c.0 q), λ m b q. g m.name (c.1 m b q))) h in
      elim a [
        | direct m e ↦ (covered target m e).0 p
        | deeper node m e b ↦ (covered node m e).1 target b p
      ]

  pub manual_ends :
      (rank : GraphNode → ℕ)
      → IsLowered nodes rank
      → (fuel : ℕ) (root : GraphNode) (s : NameSet) → Any (λ n. n ≡ root) nodes
      → rank root < fuel
      → (t : NameSet) × (add_children_to_manual nodes start_set fuel root s ≡ some t)
  unfolding add_children_to_manual
  manual_ends rank falls zero root s m h = absurd (omega arith)
  manual_ends rank falls (suc fuel) root s m h =
      children_loop-ends (is_child root) (noted root s)
        (add_children_to_manual nodes start_set fuel) nodes s
        (λ node u n e.
          manual_ends rank falls fuel node u n (omega (arith, h, falls root node m n e)))
