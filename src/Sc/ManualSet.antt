-- ===== src/Sc/ManualSet.antt =====
-- Which nodes GetAffectedNodes of pkg/sc/script_def.go takes as manual.
use mathlib.Core.Path.{subst}
use capillaries.Prelude.{
  ◌≡◌, refl, sym, Bool, true, false, not, ◌&&◌, ◌||◌, ℕ, zero, suc, List, [], ◌∷◌, some, Any, arith,
  inl, inr, ◌⊎◌, Bool-cases, ap, ◌∙◌,
}
use capillaries.Prelude.Text.{Text}
use capillaries.Sc.Affected.{
  GraphNode, NameSet, add_children_to_manual, find_node, insert, is_child, manual_nodes, member,
  name_set, note_manual,
}
use capillaries.Sc.Visits.{
  Above, direct, deeper, ◌⊆◌, ⊆_trans, children_loop-covers, children_loop_ind, member-insert,
  member_of_insert,
}
use capillaries.Sc.Manual.{manual-⊆, manual_complete, note_manual-⊆, noted}
use capillaries.Sc.Starts.{start_loop-covers, start_loop_ind}

-- The nodes of a script are told apart by their names, which are the keys of its map.
abbrev pub HasDistinctNames : List GraphNode → Type 0
HasDistinctNames nodes =
    (m n : GraphNode) → Any (λ i. i ≡ m) nodes → Any (λ i. i ≡ n) nodes → m.name ≡ n.name → m ≡ n

-- A node below a start node that has the manual start policy, and, from a manual node that is not a
-- start node itself, each of its children.
pub data IsManual (nodes : List GraphNode) (start : List Text) : GraphNode → Type 0 where
  by_policy :
      {node : GraphNode} (j : Text) (r : GraphNode)
      → Any (λ i. i ≡ j) start
      → find_node j nodes ≡ some r
      → Above nodes is_child node r
      → node.start_manual ≡ true
      → IsManual nodes start node
  by_parent :
      {node : GraphNode} (parent : GraphNode)
      → IsManual nodes start parent
      → (Any (λ i. i ≡ parent.name) start → ⊥)
      → Any (λ n. n ≡ node) nodes
      → is_child parent node ≡ true
      → IsManual nodes start node

Any-name_set :
    (k : Text) (start : List Text) → member k (name_set start) ≡ true → Any (λ i. i ≡ k) start
unfolding name_set member
Any-name_set k [] h = absurd (ground arith)
Any-name_set k (j ∷ start) h = elim (member_of_insert k j (name_set start) h) [
  | inl older ↦ inr (Any-name_set k start older)
  | inr same ↦ inl same
]

member-name_set :
    (k : Text) (start : List Text) → Any (λ i. i ≡ k) start → member k (name_set start) ≡ true
unfolding name_set member insert
member-name_set k [] h = absurd h
member-name_set k (j ∷ start) (inl same) =
    subst (λ x. member x (name_set (j ∷ start)) ≡ true) same (member-insert j (name_set start))
member-name_set k (j ∷ start) (inr h) = ground (arith, member-name_set k start h)

no_start :
    (k : Text) (start : List Text)
    → (Any (λ i. i ≡ k) start → ⊥)
    → member k (name_set start) ≡ false
no_start k start h = elim (Bool-cases (member k (name_set start))) [
  | inl m ↦ absurd (h (Any-name_set k start m))
  | inr f ↦ f
]

-- A name that is new in the set is that of the node.
new_of_note_manual :
    (b : Bool) (node : GraphNode) (u : NameSet) (k : Text)
    → member k (note_manual b node u) ≡ true
    → (member k u ≡ true) ⊎ ((node.name ≡ k) × ((b || node.start_manual) ≡ true))
unfolding note_manual
new_of_note_manual b node u k m = elim (Bool-cases (b || node.start_manual)) [
  | inl t ↦ elim (member_of_insert k node.name u (ground (arith, m))) [
    | inl old ↦ inl old
    | inr same ↦ inr (same, t)
  ]
  | inr f ↦ inl (ground (arith, m))
]

member-noted :
    (b : Bool) (node : GraphNode) (u : NameSet)
    → b ≡ true
    → member node.name (note_manual b node u) ≡ true
unfolding note_manual
member-noted b node u h = rw h (member-insert node.name u)

last_is_node :
    (nodes : List GraphNode) (m q : GraphNode) → Above nodes is_child m q → Any (λ i. i ≡ m) nodes
last_is_node nodes m q (direct i e) = i
last_is_node nodes m q (deeper node i e b) = last_is_node nodes m node b

child-Above :
    (nodes : List GraphNode) (m n r : GraphNode)
    → Above nodes is_child m r
    → Any (λ i. i ≡ n) nodes
    → is_child m n ≡ true
    → Above nodes is_child n r
child-Above nodes m n r (direct i e) a f = deeper m i e (direct a f)
child-Above nodes m n r (deeper node i e b) a f = deeper node i e (child-Above nodes m n node b a f)

module _ (nodes : List GraphNode) (start : List Text) (distinct : HasDistinctNames nodes) where
  -- The set has each child of the node, if the node is not a start node.
  abbrev ClosedAt : GraphNode → NameSet → Type 0
  ClosedAt n t =
      member n.name (name_set start) ≡ false
      → (c : GraphNode) → Any (λ i. i ≡ c) nodes
      → is_child n c ≡ true
      → member c.name t ≡ true

  -- Each name of the second set is in the first one, or the children of its node are in the second.
  abbrev ClosedSince : NameSet → NameSet → Type 0
  ClosedSince s t =
      (n : GraphNode)
      → Any (λ i. i ≡ n) nodes
      → member n.name t ≡ true
      → (member n.name s ≡ true) ⊎ ClosedAt n t

  ClosedAt-⊆ : (n : GraphNode) (u v : NameSet) → u ⊆ v → ClosedAt n u → ClosedAt n v
  ClosedAt-⊆ n u v g c f m i e = g m.name (c f m i e)

  -- A visit of a node that is in the set adds its children.
  visit-ClosedAt :
      (fuel : ℕ) (root : GraphNode) (s t : NameSet)
      → add_children_to_manual nodes (name_set start) fuel root s ≡ some t
      → member root.name s ≡ true
      → ClosedAt root t
  unfolding add_children_to_manual
  visit-ClosedAt zero root s t h m f = cc
  visit-ClosedAt (suc fuel) root s t h m f =
      children_loop-covers (is_child root) (noted nodes (name_set start) root s)
        (add_children_to_manual nodes (name_set start) fuel) nodes
        (λ node u. member node.name u ≡ true) s t
        (λ node u v _ e.
          let u' = noted nodes (name_set start) root s node u in
          let grown = manual-⊆ nodes (name_set start) fuel node u' v e in
          (
            ⊆_trans u u' v (note_manual-⊆ _ node u) grown,
            grown node.name (member-noted _ node u (ground (arith, m, f))),
          ))
        (λ node u v g c. g node.name c) h

  visit-ClosedSince :
      (fuel : ℕ) (root : GraphNode) (s t : NameSet)
      → add_children_to_manual nodes (name_set start) fuel root s ≡ some t
      → ClosedSince s t
  unfolding add_children_to_manual
  visit-ClosedSince zero root s t h = cc
  visit-ClosedSince (suc fuel) root s t h =
      children_loop_ind (is_child root) (noted nodes (name_set start) root s)
        (add_children_to_manual nodes (name_set start) fuel) nodes (ClosedSince s) s t
        (λ node u v i _ p e n a m.
          let u' = noted nodes (name_set start) root s node u in
          let grown = manual-⊆ nodes (name_set start) fuel node u' v e in
          elim (visit-ClosedSince fuel node u' v e n a m) [
            | inr closed ↦ inr closed
            | inl here ↦ elim (new_of_note_manual _ node u n.name here) [
              | inl old ↦ elim (p n a old) [
                | inl older ↦ inl older
                | inr closed ↦
                    inr (ClosedAt-⊆ n u v (⊆_trans u u' v (note_manual-⊆ _ node u) grown) closed)
              ]
              | inr new ↦
                  let same : node ≡ n = distinct node n i a new.0 in
                  inr (
                    subst (λ x. ClosedAt x v) same
                      (visit-ClosedAt fuel node u' v e
                        (subst (λ k. member k u' ≡ true) (sym new.0) here)))
            ]
          ])
        (λ n a m. inl m) h

  -- The set that is made is closed.
  manual_nodes-ClosedAt :
      (fuel : ℕ) (manual_set : NameSet)
      → manual_nodes fuel nodes start ≡ some manual_set
      → (n : GraphNode) → Any (λ i. i ≡ n) nodes
      → member n.name manual_set ≡ true
      → ClosedAt n manual_set
  unfolding manual_nodes member
  manual_nodes-ClosedAt fuel manual_set h =
      start_loop_ind (add_children_to_manual nodes (name_set start) fuel) nodes start
        (λ u. (n : GraphNode) → Any (λ i. i ≡ n) nodes → member n.name u ≡ true → ClosedAt n u) []
        manual_set
        (λ j node u v _ _ p e n a m. elim (visit-ClosedSince fuel node u v e n a m) [
          | inl old ↦ ClosedAt-⊆ n u v (manual-⊆ nodes (name_set start) fuel node u v e) (p n a old)
          | inr closed ↦ closed
        ])
        (λ n a m. absurd (ground (arith, m))) h

  is_node : (n : GraphNode) → IsManual nodes start n → Any (λ i. i ≡ n) nodes
  is_node n (by_policy j r s f a p) = last_is_node nodes n r a
  is_node n (by_parent parent m s i e) = i

  -- Each manual node is in the set.
  pub manual_nodes_complete :
      (fuel : ℕ) (manual_set : NameSet)
      → manual_nodes fuel nodes start ≡ some manual_set
      → (m : GraphNode) → IsManual nodes start m
      → member m.name manual_set ≡ true
  unfolding manual_nodes
  manual_nodes_complete fuel manual_set h m (by_policy j r n f a p) =
      start_loop-covers (add_children_to_manual nodes (name_set start) fuel) nodes start
        (λ node u. Above nodes is_child m node → member m.name u ≡ true) [] manual_set
        (λ node u v g. (
          manual-⊆ nodes (name_set start) fuel node u v g,
          λ b. manual_complete nodes (name_set start) fuel node m u v g b p,
        ))
        (λ node u v g c b. g m.name (c b)) h j r n f a
  manual_nodes_complete fuel manual_set h m (by_parent parent q s i e) =
      manual_nodes-ClosedAt fuel manual_set h parent (is_node parent q)
        (manual_nodes_complete fuel manual_set h parent q) (no_start parent.name start s) m i e

  -- The node is a start node or below one.
  abbrev IsVisited : GraphNode → Type 0
  IsVisited r =
      (j : Text) × (q : GraphNode) × Any (λ i. i ≡ j) start
      × (find_node j nodes ≡ some q)
      × ((q ≡ r) ⊎ Above nodes is_child r q)

  visited_child-Above :
      (r n : GraphNode)
      → IsVisited r
      → Any (λ i. i ≡ n) nodes
      → is_child r n ≡ true
      → (j : Text) × (q : GraphNode) × Any (λ i. i ≡ j) start
        × (find_node j nodes ≡ some q)
        × Above nodes is_child n q
  visited_child-Above r n (j, q, s, f, inl same) a e =
      (j, q, s, f, direct a (ap (λ x. is_child x n) same ∙ e))
  visited_child-Above r n (j, q, s, f, inr b) a e = (j, q, s, f, child-Above nodes r n q b a e)

  -- Each name is that of a manual node.
  abbrev IsSound : NameSet → Type 0
  IsSound u =
      (k : Text) → member k u ≡ true → (m : GraphNode) × IsManual nodes start m × (m.name ≡ k)

  noted-IsManual :
      (root node : GraphNode) (s : NameSet)
      → IsSound s
      → IsVisited root
      → Any (λ i. i ≡ root) nodes
      → Any (λ i. i ≡ node) nodes
      → is_child root node ≡ true
      → ((member root.name s && not (member root.name (name_set start))) || node.start_manual)
        ≡ true
      → IsManual nodes start node
  noted-IsManual root node s sound visited a i e t = elim (Bool-cases node.start_manual) [
    | inl p ↦
        let below = visited_child-Above root node visited i e in
        by_policy below.0 below.1 below.2 below.3 below.4 p
    | inr f ↦
        let found = sound root.name (ground (arith, t, f)) in
        let same : found.0 ≡ root = distinct found.0 root (is_node found.0 found.1) a found.2 in
        by_parent root (subst (IsManual nodes start) same found.1)
          (λ s. absurd (ground (arith, t, f, member-name_set root.name start s))) i e
  ]

  visit-IsSound :
      (fuel : ℕ) (root : GraphNode) (s t : NameSet)
      → IsVisited root
      → Any (λ i. i ≡ root) nodes
      → add_children_to_manual nodes (name_set start) fuel root s ≡ some t
      → IsSound s
      → IsSound t
  unfolding add_children_to_manual
  visit-IsSound zero root s t visited a h sound = cc
  visit-IsSound (suc fuel) root s t visited a h sound =
      children_loop_ind (is_child root) (noted nodes (name_set start) root s)
        (add_children_to_manual nodes (name_set start) fuel) nodes IsSound s t
        (λ node u v i c p e.
          let below = visited_child-Above root node visited i c in
          visit-IsSound fuel node (noted nodes (name_set start) root s node u) v
            (below.0, below.1, below.2, below.3, inr below.4) i e
            (λ k m. elim (new_of_note_manual _ node u k m) [
              | inl old ↦ p k old
              | inr new ↦ (node, noted-IsManual root node s sound visited a i c new.1, new.0)
            ]))
        sound h

  -- Each name of the set is that of a manual node.
  pub manual_nodes-IsSound :
      (fuel : ℕ) (manual_set : NameSet)
      → ((j : Text) (node : GraphNode) → find_node j nodes ≡ some node → Any (λ i. i ≡ node) nodes)
      → manual_nodes fuel nodes start ≡ some manual_set
      → IsSound manual_set
  unfolding manual_nodes member
  manual_nodes-IsSound fuel manual_set found h =
      start_loop_ind (add_children_to_manual nodes (name_set start) fuel) nodes start IsSound []
        manual_set
        (λ j node u v n f p e.
          visit-IsSound fuel node u v (j, node, n, f, inl refl) (found j node f) e p)
        (λ k m. absurd (ground (arith, m))) h
