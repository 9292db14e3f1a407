-- ===== src/Sc/Affected.antt =====
-- GetAffectedNodes of pkg/sc/script_def.go: the nodes that get messages when a run is started. The
-- nodes of a script are visited in the order of the list, in Go in any order. The recursion is on
-- fuel, the depth of the graph of nodes; without fuel the result is none.
use capillaries.Prelude.{
  Bool, false, not, ◌&&◌, ◌||◌, ℕ, zero, suc, List, [], ◌∷◌, Option, none, some, if◌then◌else◌,
}
use capillaries.Prelude.Text.{Text, text_eq}

-- The fields of a node that the functions read: the tables that it creates, reads and looks up, if
-- it does, and whether its start policy is manual.
pub record GraphNode : Type 0 where
  pub name : Text
  pub created_table : Option Text
  pub read_table : Option Text
  pub lookup_table : Option Text
  pub start_manual : Bool

-- A set of names: `map[string]struct{}`.
abbrev pub NameSet : Type 0
NameSet = List Text

unfoldable pub member : Text → NameSet → Bool
member k [] = false
member k (j ∷ s) = text_eq j k || member k s

unfoldable pub insert : Text → NameSet → NameSet
insert k s = if member k s then s else k ∷ s

unfoldable pub same_table : Option Text → Option Text → Bool
same_table (some a) (some b) = text_eq a b
same_table _ _ = false

-- A node reads or looks up the table that another one creates.
unfoldable pub is_child : GraphNode → GraphNode → Bool
unfolding same_table
is_child root node =
    same_table root.created_table node.read_table || same_table root.created_table node.lookup_table

unfoldable pub run_option : {A B : Type 0} → Option A → (A → Option B) → Option B
run_option none next = none
run_option (some a) next = next a

-- The loop of the two functions over the nodes of the script: where a node is to be visited, the set
-- is changed and the node's own children are visited.
unfoldable pub children_loop :
    (GraphNode → Bool)
    → (GraphNode → NameSet → NameSet)
    → (GraphNode → NameSet → Option NameSet)
    → List GraphNode
    → NameSet
    → Option NameSet
unfolding run_option
children_loop visits change visit [] set = some set
children_loop visits change visit (node ∷ nodes) set =
    if visits node
    then run_option (visit node (change node set)) (children_loop visits change visit nodes)
    else children_loop visits change visit nodes set

-- What addChildrenToManual does to the set at a child of a root.
unfoldable pub note_manual : Bool → GraphNode → NameSet → NameSet
unfolding insert
note_manual inherits node manual_set =
    if inherits || node.start_manual then insert node.name manual_set else manual_set

unfoldable pub add_children_to_manual :
    List GraphNode → NameSet → ℕ → GraphNode → NameSet → Option NameSet
unfolding children_loop note_manual is_child
add_children_to_manual nodes start_set zero root manual_set = none
add_children_to_manual nodes start_set (suc fuel) root manual_set =
    children_loop (is_child root)
      (note_manual (member root.name manual_set && not (member root.name start_set)))
      (add_children_to_manual nodes start_set fuel) nodes manual_set

unfoldable pub add_children_to_affected :
    List GraphNode → NameSet → ℕ → GraphNode → NameSet → Option NameSet
unfolding children_loop is_child insert
add_children_to_affected nodes manual_set zero root affected_set = none
add_children_to_affected nodes manual_set (suc fuel) root affected_set =
    children_loop (λ node. is_child root node && not (member node.name manual_set))
      (λ node set. insert node.name set) (add_children_to_affected nodes manual_set fuel) nodes
      affected_set

-- `scriptDef.ScriptNodes[name]`; the key of a node is its name.
unfoldable pub find_node : Text → List GraphNode → Option GraphNode
find_node k [] = none
find_node k (node ∷ nodes) = if text_eq node.name k then some node else find_node k nodes

-- A loop over the start nodes that the script has.
unfoldable pub start_loop :
    (GraphNode → NameSet → Option NameSet) → List GraphNode → List Text → NameSet → Option NameSet
unfolding run_option find_node
start_loop visit nodes [] set = some set
start_loop visit nodes (k ∷ start) set = elim (find_node k nodes) [
  | none ↦ start_loop visit nodes start set
  | some node ↦ run_option (visit node set) (start_loop visit nodes start)
]

unfoldable pub name_set : List Text → NameSet
unfolding insert
name_set [] = []
name_set (k ∷ start) = insert k (name_set start)

unfoldable pub manual_nodes : ℕ → List GraphNode → List Text → Option NameSet
unfolding start_loop add_children_to_manual name_set
manual_nodes fuel nodes start =
    start_loop (add_children_to_manual nodes (name_set start) fuel) nodes start []

unfoldable pub get_affected_nodes : ℕ → List GraphNode → List Text → Option NameSet
unfolding start_loop add_children_to_affected manual_nodes
get_affected_nodes fuel nodes start = run_option (manual_nodes fuel nodes start) (λ manual_set.
    start_loop
      (λ node set. add_children_to_affected nodes manual_set fuel node (insert node.name set)) nodes
      start [])
