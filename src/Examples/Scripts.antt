-- ===== src/Examples/Scripts.antt =====
-- Runs of the intervals of tokens, pkg/sc/script_node_def.go, and of the affected nodes,
-- pkg/sc/script_def.go.
use mathlib.Core.Path.{subst}
use capillaries.Prelude.{
  ◌≡◌, refl, arith, some, none, [], ◌∷◌, List, ℕ, true, false, not, ◌||◌, ◌<◌, Any, all, all-Any,
  ltb, if◌then◌else◌, count_if, inl, inr, ap,
}
use capillaries.Prelude.Text.{Text, bytes, text_eq}
use capillaries.Prelude.Int.{pos}
use capillaries.Sc.Batches.{file_reader, get_token_intervals_by_number_of_batches, table_intervals}
use capillaries.Sc.Affected.{GraphNode, NameSet, find_node, get_affected_nodes, is_child, member}
use capillaries.Sc.Visits.{Above, IsLowered}
use capillaries.Sc.ManualSet.{HasDistinctNames, IsManual}
use capillaries.Sc.Reach.{free_edge}
use capillaries.Sc.Start.{IsReached, get_affected_nodes-IsReached}
use capillaries.Sc.Tiling.{contains, token-in_one_batch}

two_files :
    get_token_intervals_by_number_of_batches (file_reader 2)
    ≡ some ((pos 0, pos 0) ∷ (pos 1, pos 1) ∷ [])
unfolding get_token_intervals_by_number_of_batches
two_files = refl

token-in_one_batch_example : count_if (contains (pos 5)) (table_intervals 3) ≡ 1
token-in_one_batch_example =
    token-in_one_batch 3 (pos 5) (omega arith) (omega arith) (omega arith) (omega arith)

-- A chain of nodes: files to a table, a manual node, and a node behind it; and a node beside it.
abbrev node_a : GraphNode
node_a = record {
  name = bytes "a";
  created_table = some (bytes "t1");
  read_table = none;
  lookup_table = none;
  start_manual = false;
}

abbrev node_b : GraphNode
node_b = record {
  name = bytes "b";
  created_table = some (bytes "t2");
  read_table = some (bytes "t1");
  lookup_table = none;
  start_manual = true;
}

abbrev node_c : GraphNode
node_c = record {
  name = bytes "c";
  created_table = none;
  read_table = some (bytes "t2");
  lookup_table = none;
  start_manual = false;
}

abbrev node_d : GraphNode
node_d = record {
  name = bytes "d";
  created_table = none;
  read_table = some (bytes "t1");
  lookup_table = none;
  start_manual = false;
}

abbrev chain : List GraphNode
chain = node_a ∷ node_b ∷ node_c ∷ node_d ∷ []

-- The start of `a` stops at the manual node, and so does what is behind it.
affected_of_a : get_affected_nodes 3 chain (bytes "a" ∷ []) ≡ some (bytes "d" ∷ bytes "a" ∷ [])
unfolding get_affected_nodes text_eq member
affected_of_a = refl

-- A start of the manual node by hand.
affected_of_b : get_affected_nodes 3 chain (bytes "b" ∷ []) ≡ some (bytes "c" ∷ bytes "b" ∷ [])
unfolding get_affected_nodes text_eq member
affected_of_b = refl

abbrev rank : GraphNode → ℕ
rank n = elim n.read_table [ none ↦ 2 | some t ↦ if text_eq t (bytes "t1") then 1 else 0 ]

chain_checked : all (λ r. all (λ n. not (is_child r n) || ltb (rank n) (rank r)) chain) chain ≡ true
unfolding is_child text_eq
chain_checked = refl

chain-IsLowered : IsLowered chain rank
chain-IsLowered r n mr mn e =
    let row =
      all-Any (λ r. all (λ n. not (is_child r n) || ltb (rank n) (rank r)) chain) chain r
        chain_checked mr in
    let cell = all-Any (λ n. not (is_child r n) || ltb (rank n) (rank r)) chain n row mn in
    ground (arith, cell)

rank_lt : (n : GraphNode) → rank n < 3
rank_lt n = ground arith

-- The node of the chain with a name.
chain_found : (n : GraphNode) → Any (λ i. i ≡ n) chain → find_node n.name chain ≡ some n
unfolding find_node text_eq
chain_found n (inl e) = subst (λ x. find_node x.name chain ≡ some x) e refl
chain_found n (inr (inl e)) = subst (λ x. find_node x.name chain ≡ some x) e refl
chain_found n (inr (inr (inl e))) = subst (λ x. find_node x.name chain ≡ some x) e refl
chain_found n (inr (inr (inr (inl e)))) = subst (λ x. find_node x.name chain ≡ some x) e refl
chain_found n (inr (inr (inr (inr none_left)))) = elim none_left [ ]

chain-HasDistinctNames : HasDistinctNames chain
chain-HasDistinctNames m n mm mn e =
    ground (arith, chain_found m mm, chain_found n mn, ap (λ k. find_node k chain) e)

get_affected_nodes-IsReached_example :
    (manual_set : NameSet) × (affected : NameSet) × (get_affected_nodes 3 chain (bytes "a" ∷ [])
      ≡ some affected)
    × ((k : Text) → member k affected ≡ true → IsReached chain manual_set (bytes "a" ∷ []) k)
    × ((k : Text) → IsReached chain manual_set (bytes "a" ∷ []) k → member k affected ≡ true)
    × ((k : Text)
        → member k manual_set ≡ true
        → (m : GraphNode) × IsManual chain (bytes "a" ∷ []) m × (m.name ≡ k))
    × ((m : GraphNode) → IsManual chain (bytes "a" ∷ []) m → member m.name manual_set ≡ true)
    × ((j : Text) (m r : GraphNode)
        → Any (λ i. i ≡ j) (bytes "a" ∷ [])
        → find_node j chain ≡ some r
        → Above chain (free_edge manual_set) m r
        → m.start_manual ≡ false)
get_affected_nodes-IsReached_example =
    get_affected_nodes-IsReached rank 3 chain (bytes "a" ∷ []) chain-HasDistinctNames
      chain-IsLowered (λ n _. rank_lt n)
