-- ===== src/Sc/Reach.antt =====
-- What addChildrenToAffected and addChildrenToManual of pkg/sc/script_def.go add to their sets.
use capillaries.Prelude.{
  Any, ◌≡◌, Bool, true, not, ◌&&◌, ◌<◌, ℕ, zero, suc, List, some, arith, inl, inr, ◌⊎◌,
}
use capillaries.Prelude.Text.{Text}
use capillaries.Sc.Affected.{GraphNode, NameSet, add_children_to_affected, insert, is_child, member}
use capillaries.Sc.Visits.{
  IsLowered, Above, direct, deeper, ◌⊆◌, ⊆_trans, children_loop-covers, children_loop-ends,
  children_loop_ind, insert-⊆, member-insert, member_of_insert,
}

-- An edge to a node that is not in the set of manual nodes.
abbrev pub free_edge : NameSet → GraphNode → GraphNode → Bool
free_edge manual_set root node = is_child root node && not (member node.name manual_set)

module _ (nodes : List GraphNode) (manual_set : NameSet) where
  pub affected-⊆ :
      (fuel : ℕ) (root : GraphNode) (s t : NameSet)
      → add_children_to_affected nodes manual_set fuel root s ≡ some t
      → s ⊆ t
  unfolding add_children_to_affected
  affected-⊆ zero root s t h = cc
  affected-⊆ (suc fuel) root s t h =
      children_loop_ind (free_edge manual_set root) (λ node set. insert node.name set)
        (add_children_to_affected nodes manual_set fuel) nodes (λ u. s ⊆ u) s t
        (λ node u v _ _ p e. ⊆_trans s u v p (
          ⊆_trans u (insert node.name u) v (insert-⊆ node.name u)
            (affected-⊆ fuel node (insert node.name u) v e)))
        (λ k m. m) h

  -- Each node that free edges lead to is added.
  pub affected_complete :
      (fuel : ℕ) (root target : GraphNode) (s t : NameSet)
      → add_children_to_affected nodes manual_set fuel root s ≡ some t
      → Above nodes (free_edge manual_set) target root
      → member target.name t ≡ true
  unfolding add_children_to_affected
  affected_complete zero root target s t h a = cc
  affected_complete (suc fuel) root target s t h a =
      let covered =
        children_loop-covers (free_edge manual_set root) (λ node set. insert node.name set)
          (add_children_to_affected nodes manual_set fuel) nodes
          (λ node u.
            (member node.name u ≡ true)
            × ((m : GraphNode)
                → Above nodes (free_edge manual_set) m node
                → member m.name u ≡ true))
          s t
          (λ node u v _ e.
            let grown = affected-⊆ fuel node (insert node.name u) v e in
            (
              ⊆_trans u (insert node.name u) v (insert-⊆ node.name u) grown,
              (
                grown node.name (member-insert node.name u),
                λ m b. affected_complete fuel node m (insert node.name u) v e b,
              ),
            ))
          (λ node u v g c. (g node.name c.0, λ m b. g m.name (c.1 m b))) h in
      elim a [
        | direct m e ↦ (covered target m e).0
        | deeper node m e b ↦ (covered node m e).1 target b
      ]

  -- Nothing else is added.
  pub affected_sound :
      (fuel : ℕ) (root : GraphNode) (s t : NameSet) (k : Text)
      → add_children_to_affected nodes manual_set fuel root s ≡ some t
      → member k t ≡ true
      → (member k s ≡ true)
        ⊎ ((m : GraphNode) × Above nodes (free_edge manual_set) m root × (m.name ≡ k))
  unfolding add_children_to_affected
  affected_sound zero root s t k h e = cc
  affected_sound (suc fuel) root s t k h e =
      children_loop_ind (free_edge manual_set root) (λ node set. insert node.name set)
        (add_children_to_affected nodes manual_set fuel) nodes
        (λ u.
          member k u ≡ true
          → (member k s ≡ true)
            ⊎ ((m : GraphNode) × Above nodes (free_edge manual_set) m root × (m.name ≡ k)))
        s t
        (λ node u v n f p g e'. elim (affected_sound fuel node (insert node.name u) v k g e') [
          | inl old ↦ elim (member_of_insert k node.name u old) [
            | inl older ↦ p older
            | inr same ↦ inr (node, direct n f, same)
          ]
          | inr found ↦ inr (found.0, deeper node n f found.1, found.2)
        ])
        (λ m. inl m) h e

  pub affected_ends :
      (rank : GraphNode → ℕ)
      → IsLowered nodes rank
      → (fuel : ℕ) (root : GraphNode) (s : NameSet) → Any (λ n. n ≡ root) nodes
      → rank root < fuel
      → (t : NameSet) × (add_children_to_affected nodes manual_set fuel root s ≡ some t)
  unfolding add_children_to_affected
  affected_ends rank falls zero root s m h = absurd (omega arith)
  affected_ends rank falls (suc fuel) root s m h =
      children_loop-ends (free_edge manual_set root) (λ node set. insert node.name set)
        (add_children_to_affected nodes manual_set fuel) nodes s
        (λ node u n e.
          affected_ends rank falls fuel node u n
            (omega (arith, h, falls root node m n (ground arith))))
