-- ===== src/Api/RunComplete.antt =====
-- The calls of StartRun, pkg/api/run.go: their order, and that a run whose id is returned has been
-- started with all its messages.
use mathlib.Core.Path.{subst}
use capillaries.Prelude.{
  ◌≡◌, refl, sym, true, false, List, [], ◌∷◌, Option, none, some, any, map, if_ind,
}
use capillaries.Prelude.Int.{ℤ}
use capillaries.Prelude.Text.{Text}
use capillaries.Sc.Affected.{get_affected_nodes}
use capillaries.Api.StartRun.{
  RunEnv, RunMessage, RunTrace, StartNode, Started, all_messages, all_table_calls, find_start_node,
  get_next_run_counter, start_affected, start_messages, start_nodes, start_run, try_all, try_call,
  verify_tables, write_run_properties,
}
use capillaries.Api.RunOrder.{
  Starts, Did, IsOrdered, try_call_ind, try_all_ind, silent-keeps, all_table_calls-IsSilent,
}
use capillaries.Api.RunSends.{all_messages-OfRun, Sent, verify_tables-Finished}

-- What it means that StartRun returned an id.
abbrev pub IsCompleted : RunEnv → List Text → ℤ → RunTrace → Type 0
IsCompleted env start id t =
    (nodes : List StartNode) × (affected : List Text) × (msgs : List RunMessage) × (env.script_nodes
      ≡ some nodes)
    × (get_affected_nodes env.fuel (map (λ n. n.graph) nodes) start ≡ some affected)
    × (all_messages id nodes affected ≡ some msgs)
    × Did env (Starts id) t
    × Sent env msgs t

abbrev Result : RunEnv → List Text → Started → Type 0
Result env start r = IsOrdered env r.1 × ((id : ℤ) → r.0 ≡ some id → IsCompleted env start id r.1)

start_affected-Result :
    (env : RunEnv) (nodes : List StartNode) (start : List Text) (id : ℤ)
    (affected : Option (List Text)) (t : RunTrace)
    → env.script_nodes ≡ some nodes
    → get_affected_nodes env.fuel (map (λ n. n.graph) nodes) start ≡ affected
    → IsOrdered env t
    → Result env start (start_affected env nodes start id affected t)
unfolding start_affected
start_affected-Result env nodes start id none t n g o = (o, λ j e. cc)
start_affected-Result env nodes start id (some affected) t n g o =
    try_call_ind env (Result env start) (write_run_properties id start affected)
      (try_all env (all_table_calls id nodes affected)
        (verify_tables env (start_messages env id (all_messages id nodes affected))))
      t ((tt, o), λ j e. cc)
      (λ _.
        try_all_ind env (IsOrdered env) (Result env start) (all_table_calls id nodes affected)
          (verify_tables env (start_messages env id (all_messages id nodes affected)))
          (write_run_properties id start affected ∷ t)
          (silent-keeps env (all_table_calls id nodes affected)
            (all_table_calls-IsSilent id nodes affected))
          (λ u o'. (o', λ j e. cc))
          (λ u o'.
            let finished =
              verify_tables-Finished env id (all_messages id nodes affected) u
                (λ msgs e. all_messages-OfRun id nodes affected msgs e) o' in
            (
              finished.0,
              λ j e.
                  let f = finished.1 j e in
                  subst
                    (λ i.
                      IsCompleted env start i
                        (verify_tables env (start_messages env id (all_messages id nodes affected))
                          u).1)
                    (sym f.0) (nodes, affected, f.1, n, g, f.2, f.3.0, f.3.1),
            ))
          (tt, o))

start_nodes-Result :
    (env : RunEnv) (nodes : List StartNode) (start : List Text) (t : RunTrace)
    → env.script_nodes ≡ some nodes
    → IsOrdered env t
    → Result env start (start_nodes env nodes start t)
unfolding start_nodes
start_nodes-Result env nodes start t n o =
    if_ind (Result env start)
      (any (λ k. elim (find_start_node k nodes) [ none ↦ true | some n ↦ false ]) start) (none, t)
      (try_call env get_next_run_counter
        (λ u.
          start_affected env nodes start (env.next_run_id t)
            (get_affected_nodes env.fuel (map (λ n. n.graph) nodes) start) u)
        t)
      (λ _. (o, λ j e. cc))
      (λ _.
        try_call_ind env (Result env start) get_next_run_counter
          (λ u.
            start_affected env nodes start (env.next_run_id t)
              (get_affected_nodes env.fuel (map (λ n. n.graph) nodes) start) u)
          t ((tt, o), λ j e. cc)
          (λ _.
            start_affected-Result env nodes start (env.next_run_id t)
              (get_affected_nodes env.fuel (map (λ n. n.graph) nodes) start)
              (get_next_run_counter ∷ t) n refl (tt, o)))

loaded-Result :
    (env : RunEnv) (found : Option (List StartNode)) (start : List Text) (t : RunTrace)
    → env.script_nodes ≡ found
    → IsOrdered env t
    → Result env start
        (elim found [ none ↦ (none, t) | some nodes ↦ start_nodes env nodes start t ])
loaded-Result env none start t n o = (o, λ j e. cc)
loaded-Result env (some nodes) start t n o = start_nodes-Result env nodes start t n o

-- Whatever the environment answers, StartRun sends a message only after its run has been marked
-- started by a write that did not fail; and if it returns a run id, such a write has marked the run
-- started and every message built for the affected nodes of the script has been sent by a call that
-- did not fail.
pub start_run-IsCompleted :
    (env : RunEnv) (start : List Text)
    → IsOrdered env (start_run env start []).1
      × ((id : ℤ)
          → (start_run env start []).0 ≡ some id
          → IsCompleted env start id (start_run env start []).1)
unfolding start_run
start_run-IsCompleted env start =
    if_ind (Result env start) env.keyspace_allowed
      (elim env.script_nodes [ none ↦ (none, []) | some nodes ↦ start_nodes env nodes start [] ])
      (none, []) (λ _. loaded-Result env env.script_nodes start [] refl tt) (λ _. (tt, λ j e. cc))
