-- ===== src/Api/StartRun.antt =====
-- pkg/api/run.go: StartRun and StopRun, against an environment that answers each call as it likes.
-- The ids and the time stamps of messages are left out. The fuel is that of GetAffectedNodes.
use capillaries.Prelude.{
  Bool, true, false, ◌++◌, ℕ, suc, List, [], ◌∷◌, Option, none, some, map, length, any,
  if◌then◌else◌,
}
use capillaries.Prelude.Int.{ℤ, pos, int_lt, wrap16}
use capillaries.Prelude.Text.{Text}
use capillaries.Wfmodel.Status.{RunStatus, run_start, run_stop}
use capillaries.Sc.Batches.{Reader, get_token_intervals_by_number_of_batches}
use capillaries.Sc.Affected.{GraphNode, find_node, get_affected_nodes}

-- The fields of a node that StartRun reads.
pub record StartNode : Type 0 where
  pub graph : GraphNode
  pub indexes : List Text
  pub reader : Reader

-- The fields of wfmodel.Message that StartRun sets from the run.
pub record RunMessage : Type 0 where
  pub run_id : ℤ
  pub target_node_name : Text
  pub first_token : ℤ
  pub last_token : ℤ
  pub batch_idx : ℤ
  pub batches_total : ℤ

pub data RunCall : Type 0 where
  get_next_run_counter : RunCall
  write_run_properties : ℤ → List Text → List Text → RunCall
  create_data_table create_idx_table : Text → ℤ → RunCall
  verify_tables_ready : RunCall
  set_run_status : ℤ → RunStatus → RunCall
  send_bulk : List RunMessage → RunCall
  send : RunMessage → RunCall

-- The calls made so far, the latest first.
abbrev pub RunTrace : Type 0
RunTrace = List RunCall

-- Whether a call fails, the id that the counter gives, the nodes of the script if it can be loaded.
pub record RunEnv : Type 0 where
  pub keyspace_allowed : Bool
  pub script_nodes : Option (List StartNode)
  pub fuel : ℕ
  pub next_run_id : RunTrace → ℤ
  pub fails : RunCall → RunTrace → Bool
  pub is_amazon_keyspaces : Bool
  pub supports_send_bulk : Bool

-- The run id, or none with an error; and the calls.
abbrev pub Started : Type 0
Started = Option ℤ × RunTrace

-- A call whose error ends the function.
unfoldable pub try_call : RunEnv → RunCall → (RunTrace → Started) → RunTrace → Started
try_call env c next t = if env.fails c t then (none, c ∷ t) else next (c ∷ t)

unfoldable pub try_all : RunEnv → List RunCall → (RunTrace → Started) → RunTrace → Started
unfolding try_call
try_all env [] next t = next t
try_all env (c ∷ cs) next t = try_call env c (try_all env cs next) t

-- SetRunStatus: no run has the id 0.
unfoldable pub set_status : RunEnv → ℤ → RunStatus → (RunTrace → Started) → RunTrace → Started
unfolding try_call
set_status env id status next t =
    if int_lt (pos 0) id then try_call env (set_run_status id status) next t else (none, t)

-- StopRun
unfoldable pub stop_run : RunEnv → ℤ → RunTrace → Started
unfolding set_status
stop_run env id t =
    if env.keyspace_allowed then set_status env id run_stop (λ u. (some id, u)) t else (none, t)

unfoldable pub find_start_node : Text → List StartNode → Option StartNode
find_start_node k [] = none
find_start_node k (n ∷ nodes) = elim (find_node k (n.graph ∷ [])) [
  | some g ↦ some n
  | none ↦ find_start_node k nodes
]

-- The statements that create the tables of a node: its data table and its index tables.
unfoldable pub table_calls : ℤ → StartNode → List RunCall
table_calls id node = elim node.graph.created_table [
  | none ↦ []
  | some table ↦ create_data_table table id ∷ map (λ i. create_idx_table i id) node.indexes
]

-- For the affected nodes that the script has.
unfoldable pub all_table_calls : ℤ → List StartNode → List Text → List RunCall
unfolding table_calls find_start_node
all_table_calls id nodes [] = []
all_table_calls id nodes (k ∷ affected) = elim (find_start_node k nodes) [
  | none ↦ all_table_calls id nodes affected
  | some node ↦ table_calls id node ++ all_table_calls id nodes affected
]

-- The messages of a node from the one with an index on.
unfoldable pub messages_loop : ℤ → Text → ℕ → ℕ → List (ℤ × ℤ) → List RunMessage
messages_loop id name total idx [] = []
messages_loop id name total idx ((first, last) ∷ intervals) =
    record {
      run_id = id;
      target_node_name = name;
      first_token = first;
      last_token = last;
      batch_idx = wrap16 (pos idx);
      batches_total = wrap16 (pos total);
    }
    ∷ messages_loop id name total (suc idx) intervals

unfoldable pub node_messages : ℤ → Text → List (ℤ × ℤ) → List RunMessage
unfolding messages_loop
node_messages id name intervals = messages_loop id name (length intervals) 0 intervals

-- None is the error of a node that is not there or has no intervals.
unfoldable pub all_messages : ℤ → List StartNode → List Text → Option (List RunMessage)
unfolding node_messages find_start_node
all_messages id nodes [] = some []
all_messages id nodes (k ∷ affected) = elim (find_start_node k nodes) [
  | none ↦ none
  | some node ↦ elim (get_token_intervals_by_number_of_batches node.reader) [
    | none ↦ none
    | some intervals ↦ elim (all_messages id nodes affected) [
      | none ↦ none
      | some rest ↦ some (node_messages id k intervals ++ rest)
    ]
  ]
]

unfoldable pub send_messages : RunEnv → List RunMessage → (RunTrace → Started) → RunTrace → Started
unfolding try_call try_all
send_messages env msgs next =
    if env.supports_send_bulk
    then try_call env (send_bulk msgs) next
    else try_all env (map send msgs) next

unfoldable pub start_messages : RunEnv → ℤ → Option (List RunMessage) → RunTrace → Started
unfolding set_status send_messages
start_messages env id none t = (none, t)
start_messages env id (some msgs) t =
    set_status env id run_start (send_messages env msgs (λ u. (some id, u))) t

unfoldable pub verify_tables : RunEnv → (RunTrace → Started) → RunTrace → Started
unfolding try_call
verify_tables env next =
    if env.is_amazon_keyspaces then try_call env verify_tables_ready next else next

unfoldable pub start_affected :
    RunEnv → List StartNode → List Text → ℤ → Option (List Text) → RunTrace → Started
unfolding try_call try_all verify_tables start_messages all_table_calls all_messages
start_affected env nodes start id none t = (none, t)
start_affected env nodes start id (some affected) t =
    try_call env (write_run_properties id start affected)
      (try_all env (all_table_calls id nodes affected)
        (verify_tables env (start_messages env id (all_messages id nodes affected))))
      t

unfoldable pub start_nodes : RunEnv → List StartNode → List Text → RunTrace → Started
unfolding start_affected try_call
start_nodes env nodes start t =
    if any (λ k. elim (find_start_node k nodes) [ none ↦ true | some n ↦ false ]) start
    then (none, t)
    else try_call env get_next_run_counter
        (λ u.
          start_affected env nodes start (env.next_run_id t)
            (get_affected_nodes env.fuel (map (λ n. n.graph) nodes) start) u)
        t

-- StartRun
unfoldable pub start_run : RunEnv → List Text → RunTrace → Started
unfolding start_nodes
start_run env start t =
    if env.keyspace_allowed
    then elim env.script_nodes [ none ↦ (none, t) | some nodes ↦ start_nodes env nodes start t ]
    else (none, t)
