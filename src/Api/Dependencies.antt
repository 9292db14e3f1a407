-- ===== src/Api/Dependencies.antt =====
-- checkDependencyNodesReady of pkg/api/message_handler.go and BuildDependencyNodeRunStatusMap of
-- pkg/wfdb/dependency_node_event.go.
use capillaries.Prelude.{
  Bool, true, false, ◌||◌, Option, none, some, List, [], ◌∷◌, ◌++◌, if◌then◌else◌,
}
use capillaries.Prelude.Int.{ℤ, pos, negsuc, int_eq}
use capillaries.Prelude.Text.{Text}
use capillaries.Prelude.Assoc.{Assoc, lookup, put}
use capillaries.Prelude.IntMap as IntMap
use capillaries.Wfmodel.Status.{RunStatus, run_none}
use capillaries.Wfmodel.NodeHistory.{
  NodeHistoryEvent, NodeStatusMap, node_history_rows_to_events, figure_out_run_status,
}
use capillaries.Wfmodel.RunHistory.{
  RunHistoryEvent, run_history_rows_to_events, run_history_events_to_run_status_map,
}
use capillaries.Wfmodel.RunProperties.{DependencyRuns, multiple_runs_properties_to_dependencies}
use capillaries.Dpc.Policy.{
  NodeCmd, node_go, node_wait, node_nogo, node_cmd_from_string, DependencyPolicyDef, NodeRunStatus,
  Verdict, verdict, policy_error, check_dependency_policy,
}
use capillaries.Api.World.{
  plain_error, Reply, got, failed, ScriptNode, Script, BatchMessage, Cached, cache_miss,
  cache_unparsed, cache_hit, get_all_runs_properties, get_run_history, get_dependency_history,
  cache_get, cache_remove, cache_add, Env, M, ◌>>=◌, ◌>>◌, pure, call, decoded, on_reply,
}

pub record Ready : Type 0 where
  pub cmd : NodeCmd
  pub run_id_reader : ℤ
  pub run_id_lookup : ℤ
  pub rule_idx_reader : ℤ
  pub rule_idx_lookup : ℤ

-- The node that creates a table, if the script node uses a table of that kind.
creator_of : Option Text → Script → List Text → Reply (List Text)
creator_of none s found = got found
creator_of (some table) s found = elim (lookup table s.table_creator_nodes) [
  | none ↦ failed plain_error
  | some n ↦ got (found ++ n ∷ [])
]

creator_of_lookup : ScriptNode → Script → Reply (List Text) → Reply (List Text)
unfolding creator_of
creator_of_lookup node s (got found) = creator_of node.lookup_table s found
creator_of_lookup node s (failed e) = failed e

-- The nodes that the script node depends on: the reader's first, then the lookup's.
unfoldable pub dependency_nodes : ScriptNode → Script → Reply (List Text)
unfolding creator_of_lookup
dependency_nodes node s = creator_of_lookup node s (creator_of node.reader_table s [])

-- `runStatusMap[runId]`, which is RunNone for a run without a history.
abbrev status_or_none : Option RunStatus → RunStatus
status_or_none none = run_none
status_or_none (some s) = s

abbrev nodes_or_nil : Option (List Text) → List Text
nodes_or_nil none = []
nodes_or_nil (some l) = l

abbrev statuses_or_nil : Option (List NodeRunStatus) → List NodeRunStatus
statuses_or_nil none = []
statuses_or_nil (some l) = l

-- The loop over one run's nodes.
unfoldable pub note_run_nodes :
    ℤ → Bool → RunStatus → NodeStatusMap → Assoc (List NodeRunStatus) → Assoc (List NodeRunStatus)
note_run_nodes run_id is_current status [] m = m
note_run_nodes run_id is_current status ((node, s) ∷ nodes) m =
    let nrs : NodeRunStatus = record {
      run_id = run_id;
      run_is_current = is_current;
      run_status = status;
      node_status = s;
    } in
    note_run_nodes run_id is_current status nodes
      (put node (statuses_or_nil (lookup node m) ++ nrs ∷ []) m)

unfoldable pub note_runs :
    List ℤ
    → ℤ
    → DependencyRuns
    → IntMap.IntMap RunStatus
    → List NodeHistoryEvent
    → Assoc (List NodeRunStatus)
    → Assoc (List NodeRunStatus)
unfolding note_run_nodes figure_out_run_status
note_runs [] current deps statuses es m = m
note_runs (r ∷ runs) current deps statuses es m = note_runs runs current deps statuses es (
    note_run_nodes r (int_eq r current) (status_or_none (IntMap.lookup r statuses))
      (figure_out_run_status es r (nodes_or_nil (IntMap.lookup r deps.run_nodes))).1 m)

module _ (env : Env) where
  build_from_history :
      BatchMessage → DependencyRuns → List RunHistoryEvent → M (Reply (Assoc (List NodeRunStatus)))
  unfolding note_runs
  build_from_history msg deps run_events = do
    rows ← call get_dependency_history env.dependency_history_rows
    on_reply rows (λ e. pure (failed e))
        λ rows.
          on_reply (decoded (node_history_rows_to_events rows)) (λ e. pure (failed e))
            λ es. pure (
              got (
                note_runs deps.run_ids msg.run_id deps
                  (run_history_events_to_run_status_map run_events) es []))

  build_from_runs : BatchMessage → DependencyRuns → M (Reply (Assoc (List NodeRunStatus)))
  unfolding build_from_history
  build_from_runs msg deps = do
    rows ← call get_run_history env.run_history_rows
    on_reply rows (λ e. pure (failed e))
        λ rows.
          on_reply (decoded (run_history_rows_to_events rows)) (λ e. pure (failed e))
            (build_from_history msg deps)

  unfoldable pub build_dependency_node_run_status_map :
      BatchMessage → List Text → M (Reply (Assoc (List NodeRunStatus)))
  unfolding build_from_runs
  build_dependency_node_run_status_map msg nodes = do
    rows ← call get_all_runs_properties env.all_runs_properties_rows
    on_reply rows (λ e. pure (failed e))
        λ rows.
          on_reply
            (decoded (
              multiple_runs_properties_to_dependencies rows nodes
                ("run_id" ∷ "affected_nodes" ∷ [])))
            (λ e. pure (failed e)) (build_from_runs msg)

-- The policy's verdict on one dependency node; a node without an event is an error.
node_verdict : DependencyPolicyDef → List NodeRunStatus → Reply Verdict
unfolding check_dependency_policy
node_verdict policy [] = failed plain_error
node_verdict policy (e ∷ es) = elim (check_dependency_policy policy (e ∷ es)) [
  | verdict v ↦ got v
  | policy_error x ↦ failed plain_error
]

unfoldable pub node_verdicts :
    DependencyPolicyDef → Assoc (List NodeRunStatus) → List Text → Reply (List Verdict)
unfolding node_verdict
node_verdicts policy m [] = got []
node_verdicts policy m (n ∷ nodes) = elim (node_verdict policy (statuses_or_nil (lookup n m))) [
  | failed e ↦ failed e
  | got v ↦ elim (node_verdicts policy m nodes) [ failed e ↦ failed e | got vs ↦ got (v ∷ vs) ]
]

abbrev is_nogo : NodeCmd → Bool
is_nogo node_nogo = true
is_nogo _ = false

abbrev is_wait : NodeCmd → Bool
is_wait node_wait = true
is_wait _ = false

abbrev pub nothing_to_wait_for : Ready
nothing_to_wait_for = record {
  cmd = node_go;
  run_id_reader = pos 0;
  run_id_lookup = pos 0;
  rule_idx_reader = negsuc 0;
  rule_idx_lookup = negsuc 0;
}

-- One verdict is handed on, of two the worse one.
unfoldable pub combine_verdicts : List Verdict → Ready
combine_verdicts [] = nothing_to_wait_for
combine_verdicts (v ∷ []) = record nothing_to_wait_for {
  cmd = v.cmd;
  run_id_reader = v.run_id;
  rule_idx_reader = v.rule_idx;
}
combine_verdicts (v ∷ w ∷ _) = record {
  cmd =
      if is_nogo v.cmd || is_nogo w.cmd
      then node_nogo
      else if is_wait v.cmd || is_wait w.cmd
      then node_wait
      else node_go;
  run_id_reader = v.run_id;
  run_id_lookup = w.run_id;
  rule_idx_reader = v.rule_idx;
  rule_idx_lookup = w.rule_idx;
}

-- What the cache answers, if it is a valid command.
unfoldable pub from_cache : Cached → Option Ready
unfolding node_cmd_from_string
from_cache cache_miss = none
from_cache cache_unparsed = none
from_cache (cache_hit s reader lookup rule_reader rule_lookup) =
    let c = node_cmd_from_string s in
    if c.1
    then some (record {
      cmd = c.0;
      run_id_reader = reader;
      run_id_lookup = lookup;
      rule_idx_reader = rule_reader;
      rule_idx_lookup = rule_lookup;
    })
    else none

module _ (env : Env) where
  add_to_cache : Ready → M (Reply Ready)
  add_to_cache r =
      if env.has_cache
      then (do
        call (cache_add r.cmd r.run_id_reader r.run_id_lookup r.rule_idx_reader r.rule_idx_lookup)
            (λ _. tt)
        pure (got r))
      else pure (got r)

  query_nodes : BatchMessage → ScriptNode → List Text → M (Reply Ready)
  unfolding add_to_cache build_dependency_node_run_status_map node_verdicts combine_verdicts
  query_nodes msg node [] = pure (got nothing_to_wait_for)
  query_nodes msg node (n ∷ nodes) = do
    m ← build_dependency_node_run_status_map env msg (n ∷ nodes)
    on_reply m (λ e. pure (failed e))
        λ m.
          on_reply (node_verdicts node.dep_pol_def m (n ∷ nodes)) (λ e. pure (failed e))
            λ vs. add_to_cache (combine_verdicts vs)

  query_dependencies : BatchMessage → Script → ScriptNode → M (Reply Ready)
  unfolding query_nodes dependency_nodes
  query_dependencies msg s node =
      on_reply (dependency_nodes node s) (λ e. pure (failed e)) (query_nodes msg node)

  -- A miss leaves the cache as it is, an entry that is not valid is removed.
  discard_unless_miss : Cached → M Unit
  discard_unless_miss cache_miss = pure tt
  discard_unless_miss _ = call cache_remove (λ _. tt)

  answer_from_cache : BatchMessage → Script → ScriptNode → Cached → M (Reply Ready)
  unfolding from_cache discard_unless_miss query_dependencies
  answer_from_cache msg s node c = elim (from_cache c) [
    | some r ↦ pure (got r)
    | none ↦ discard_unless_miss c >> query_dependencies msg s node
  ]

  unfoldable pub check_dependency_nodes_ready : BatchMessage → Script → ScriptNode → M (Reply Ready)
  unfolding answer_from_cache query_dependencies
  check_dependency_nodes_ready msg s node =
      if env.has_cache
      then (do c ← call cache_get env.cached; answer_from_cache msg s node c)
      else query_dependencies msg s node
