-- ===== src/Sc/Start.antt =====
-- GetAffectedNodes of pkg/sc/script_def.go as a whole: the nodes that a start of a run reaches.
use mathlib.Core.Path.{subst}
use capillaries.Prelude.{
  ◌∷◌, ◌≡◌, true, false, ◌<◌, ℕ, List, [], Option, some, Any, arith, inl, inr, ◌⊎◌, Bool-cases,
}
use capillaries.Prelude.Text.{Text, text_eq}
use capillaries.Sc.Affected.{
  GraphNode, NameSet, add_children_to_affected, add_children_to_manual, find_node,
  get_affected_nodes, insert, is_child, manual_nodes, member, name_set, start_loop,
}
use capillaries.Sc.Visits.{
  IsLowered, Above, direct, deeper, ⊆_trans, insert-⊆, member-insert, member_of_insert,
}
use capillaries.Sc.Reach.{affected-⊆, affected_complete, affected_ends, affected_sound, free_edge}
use capillaries.Sc.Manual.{manual-⊆, manual_complete, manual_ends}
use capillaries.Sc.ManualSet.{
  HasDistinctNames, IsManual, manual_nodes_complete, manual_nodes-IsSound,
}
use capillaries.Sc.Starts.{start_loop-covers, start_loop-ends, start_loop_ind}

-- A node with the name that is a start node, or that free edges lead to from one.
abbrev pub IsReached : List GraphNode → NameSet → List Text → Text → Type 0
IsReached nodes manual_set start k =
    (j : Text) × (r : GraphNode) × Any (λ i. i ≡ j) start
    × (find_node j nodes ≡ some r)
    × ((r.name ≡ k) ⊎ ((m : GraphNode) × Above nodes (free_edge manual_set) m r × (m.name ≡ k)))

-- A visit of a start node.
abbrev start_visit : List GraphNode → NameSet → ℕ → GraphNode → NameSet → Option NameSet
start_visit nodes manual_set fuel node set =
    add_children_to_affected nodes manual_set fuel node (insert node.name set)

no_member : (k : Text) → member k [] ≡ true → ⊥
unfolding member
no_member k h = absurd (ground arith)

starts_sound :
    (nodes : List GraphNode) (manual_set : NameSet) (fuel : ℕ) (start : List Text) (t : NameSet)
    (k : Text)
    → start_loop (start_visit nodes manual_set fuel) nodes start [] ≡ some t
    → member k t ≡ true
    → IsReached nodes manual_set start k
starts_sound nodes manual_set fuel start t k h e =
    start_loop_ind (start_visit nodes manual_set fuel) nodes start
      (λ u. member k u ≡ true → IsReached nodes manual_set start k) [] t
      (λ j node u v n f p g m.
        elim (affected_sound nodes manual_set fuel node (insert node.name u) v k g m) [
          | inl old ↦ elim (member_of_insert k node.name u old) [
            | inl older ↦ p older
            | inr same ↦ (j, node, n, f, inl same)
          ]
          | inr found ↦ (j, node, n, f, inr found)
        ])
      (λ m. absurd (no_member k m)) h e

starts_complete :
    (nodes : List GraphNode) (manual_set : NameSet) (fuel : ℕ) (start : List Text) (t : NameSet)
    (k : Text)
    → start_loop (start_visit nodes manual_set fuel) nodes start [] ≡ some t
    → IsReached nodes manual_set start k
    → member k t ≡ true
starts_complete nodes manual_set fuel start t k h e =
    let covered =
      start_loop-covers (start_visit nodes manual_set fuel) nodes start
        (λ node u.
          (member node.name u ≡ true)
          × ((m : GraphNode) → Above nodes (free_edge manual_set) m node → member m.name u ≡ true))
        [] t
        (λ node u v g.
          let grown = affected-⊆ nodes manual_set fuel node (insert node.name u) v g in
          (
            ⊆_trans u (insert node.name u) v (insert-⊆ node.name u) grown,
            (
              grown node.name (member-insert node.name u),
              λ m b. affected_complete nodes manual_set fuel node m (insert node.name u) v g b,
            ),
          ))
        (λ node u v g c. (g node.name c.0, λ m b. g m.name (c.1 m b))) h e.0 e.1 e.2 e.3 in
    elim e.4 [
      | inl same ↦ subst (λ n. member n t ≡ true) same covered.0
      | inr found ↦ subst (λ n. member n t ≡ true) found.2 (covered.1 found.0 found.1)
    ]

-- Free edges are edges, and lead to nodes that are not in the set of manual nodes.
free_is_child :
    (nodes : List GraphNode) (manual_set : NameSet) (m r : GraphNode)
    → Above nodes (free_edge manual_set) m r
    → Above nodes is_child m r × (member m.name manual_set ≡ false)
free_is_child nodes manual_set m r (direct n e) = (direct n (ground arith), ground arith)
free_is_child nodes manual_set m r (deeper node n e b) =
    let rest = free_is_child nodes manual_set m node b in
    (deeper node n (ground arith) rest.0, rest.1)

-- A node with the manual start policy is reached by no free edges.
starts_manual :
    (nodes : List GraphNode) (fuel : ℕ) (start : List Text) (manual_set : NameSet) (j : Text)
    (m r : GraphNode)
    → manual_nodes fuel nodes start ≡ some manual_set
    → Any (λ i. i ≡ j) start
    → find_node j nodes ≡ some r
    → Above nodes (free_edge manual_set) m r
    → m.start_manual ≡ false
unfolding manual_nodes
starts_manual nodes fuel start manual_set j m r h n f a = elim (Bool-cases m.start_manual) [
  | inl p ↦
      let edges = free_is_child nodes manual_set m r a in
      let noted : member m.name manual_set ≡ true =
        start_loop-covers (add_children_to_manual nodes (name_set start) fuel) nodes start
          (λ node u. Above nodes is_child m node → member m.name u ≡ true) [] manual_set
          (λ node u v g. (
            manual-⊆ nodes (name_set start) fuel node u v g,
            λ b. manual_complete nodes (name_set start) fuel node m u v g b p,
          ))
          (λ node u v g c b. g m.name (c b)) h j r n f edges.0 in
      absurd (ground (arith, edges.1, noted))
  | inr f' ↦ f'
]

-- A node that is found is one of the script's.
find_node-Any :
    (k : Text) (nodes : List GraphNode) (node : GraphNode)
    → find_node k nodes ≡ some node
    → Any (λ m. m ≡ node) nodes
unfolding find_node
find_node-Any k [] node h = cc
find_node-Any k (n ∷ nodes) node h = elim (Bool-cases (text_eq n.name k)) [
  | inl e ↦ inl (ground arith)
  | inr f ↦ inr (find_node-Any k nodes node (ground arith))
]

manual_ends_at :
    (rank : GraphNode → ℕ) (fuel : ℕ) (nodes : List GraphNode) (start : List Text)
    → IsLowered nodes rank
    → ((n : GraphNode) → Any (λ m. m ≡ n) nodes → rank n < fuel)
    → (manual_set : NameSet) × (manual_nodes fuel nodes start ≡ some manual_set)
unfolding manual_nodes
manual_ends_at rank fuel nodes start falls enough =
    start_loop-ends (add_children_to_manual nodes (name_set start) fuel) nodes start []
      (λ k node u f.
        let found = find_node-Any k nodes node f in
        manual_ends nodes (name_set start) rank falls fuel node u found (enough node found))

-- In a script whose nodes have distinct names and whose edges lower some rank of its nodes, with more
-- fuel than the rank of each of its nodes, GetAffectedNodes ends. It gives exactly the names of the
-- start nodes that the script has and of the nodes that edges lead to from them through nodes outside of
-- the set of manual nodes. The names in this set are exactly those of the manual nodes: the nodes with
-- the manual start policy that edges lead to from a start node, with or without a manual node between
-- them, and the children of each manual node that is not a start node. Of the nodes that edges lead to
-- outside of the set none has the manual start policy.
pub get_affected_nodes-IsReached :
    (rank : GraphNode → ℕ) (fuel : ℕ) (nodes : List GraphNode) (start : List Text)
    → HasDistinctNames nodes
    → IsLowered nodes rank
    → ((n : GraphNode) → Any (λ m. m ≡ n) nodes → rank n < fuel)
    → (manual_set : NameSet) × (affected : NameSet) × (get_affected_nodes fuel nodes start
        ≡ some affected)
      × ((k : Text) → member k affected ≡ true → IsReached nodes manual_set start k)
      × ((k : Text) → IsReached nodes manual_set start k → member k affected ≡ true)
      × ((k : Text)
          → member k manual_set ≡ true
          → (m : GraphNode) × IsManual nodes start m × (m.name ≡ k))
      × ((m : GraphNode) → IsManual nodes start m → member m.name manual_set ≡ true)
      × ((j : Text) (m r : GraphNode)
          → Any (λ i. i ≡ j) start
          → find_node j nodes ≡ some r
          → Above nodes (free_edge manual_set) m r
          → m.start_manual ≡ false)
unfolding get_affected_nodes
get_affected_nodes-IsReached rank fuel nodes start distinct falls enough =
    let manual = manual_ends_at rank fuel nodes start falls enough in
    let affected = start_loop-ends (start_visit nodes manual.0 fuel) nodes start [] (λ k node u f.
      let found = find_node-Any k nodes node f in
      affected_ends nodes manual.0 rank falls fuel node (insert node.name u) found
        (enough node found)) in
    (
      manual.0,
      affected.0,
      ground (arith, manual.1, affected.1),
      λ k m. starts_sound nodes manual.0 fuel start affected.0 k affected.1 m,
      λ k m. starts_complete nodes manual.0 fuel start affected.0 k affected.1 m,
      manual_nodes-IsSound nodes start distinct fuel manual.0
          (λ j node f. find_node-Any j nodes node f) manual.1,
      λ m q. manual_nodes_complete nodes start distinct fuel manual.0 manual.1 m q,
      λ j m r n f a. starts_manual nodes fuel start manual.0 j m r manual.1 n f a,
    )
