-- ===== src/Examples/Starts.antt =====
-- Runs of StartRun, pkg/api/run.go.
use capillaries.Prelude.{
  ℕ, zero, suc, ◌+◌, ◌<◌, ◌≡◌, refl, arith, true, false, none, some, [], ◌∷◌, get_elem?, length,
}
use capillaries.Prelude.Int.{ℤ, pos, min_int64, max_int64}
use capillaries.Prelude.Text.{bytes}
use capillaries.Wfmodel.Status.{run_start}
use capillaries.Sc.Batches.{file_intervals, table_reader}
use capillaries.Api.StartRun.{
  RunEnv, StartNode, create_data_table, get_next_run_counter, node_messages, send, set_run_status,
  start_run, write_run_properties, RunTrace, create_idx_table,
}
use capillaries.Api.RunOrder.{IsOrdered}
use capillaries.Api.RunComplete.{IsCompleted, start_run-IsCompleted}
use capillaries.Api.RunMessages.{get_elem?-node_messages, message_of, node_messages-collide}

abbrev node : StartNode
node = record {
  graph = record {
    name = bytes "n";
    created_table = some (bytes "t2");
    read_table = some (bytes "t1");
    lookup_table = none;
    start_manual = false;
  };
  indexes = bytes "idx" ∷ [];
  reader = table_reader 1;
}

-- Every call succeeds.
abbrev env : RunEnv
env = record {
  keyspace_allowed = true;
  script_nodes = some (node ∷ []);
  fuel = 2;
  next_run_id = λ t. pos 7;
  fails = λ c t. false;
  is_amazon_keyspaces = false;
  supports_send_bulk = false;
}

abbrev all_calls : RunTrace
all_calls =
    send (message_of (pos 7) (bytes "n") (pos 0) (pos 1) (min_int64, max_int64))
    ∷ set_run_status (pos 7) run_start
    ∷ create_idx_table (bytes "idx") (pos 7)
    ∷ create_data_table (bytes "t2") (pos 7)
    ∷ write_run_properties (pos 7) (bytes "n" ∷ []) (bytes "n" ∷ [])
    ∷ get_next_run_counter
    ∷ []

one_node : start_run env (bytes "n" ∷ []) [] ≡ (some (pos 7), all_calls)
unfolding start_run capillaries.Sc.Affected.find_node capillaries.Prelude.Text.text_eq
    capillaries.Sc.Affected.get_affected_nodes capillaries.Sc.Affected.member
    capillaries.Sc.Batches.get_token_intervals_by_number_of_batches capillaries.Prelude.Int.wrap16
one_node = refl

start_run-IsCompleted_example :
    IsOrdered env (start_run env (bytes "n" ∷ []) []).1
    × ((id : ℤ)
        → (start_run env (bytes "n" ∷ []) []).0 ≡ some id
        → IsCompleted env (bytes "n" ∷ []) id (start_run env (bytes "n" ∷ []) []).1)
start_run-IsCompleted_example = start_run-IsCompleted env (bytes "n" ∷ [])

get_elem?-node_messages_example :
    (length (node_messages (pos 7) (bytes "n") (file_intervals 0 3)) ≡ 3)
    × (get_elem? (node_messages (pos 7) (bytes "n") (file_intervals 0 3)) 2
        ≡ some (message_of (pos 7) (bytes "n") (pos 2) (pos 3) (pos 2, pos 2)))
unfolding file_intervals
get_elem?-node_messages_example =
    get_elem?-node_messages (pos 7) (bytes "n") (file_intervals 0 3) 2 (pos 2, pos 2) (omega arith)
      refl

-- The interval with an index, in a node of files.
file_interval_at :
    (i n k : ℕ) → k < n → get_elem? (file_intervals i n) k ≡ some (pos (i + k), pos (i + k))
unfolding file_intervals
file_interval_at i zero k h = absurd (omega arith)
file_interval_at i (suc n) zero h = ground arith
file_interval_at i (suc n) (suc k) h = ground (arith, file_interval_at (suc i) n k)

node_messages-collide_example :
    (b : ℤ) × (t : ℤ) × (get_elem? (node_messages (pos 7) (bytes "n") (file_intervals 0 70000)) 3
      ≡ some (message_of (pos 7) (bytes "n") b t (pos (0 + 3), pos (0 + 3))))
    × (get_elem? (node_messages (pos 7) (bytes "n") (file_intervals 0 70000)) (3 + 65536)
        ≡ some (message_of (pos 7) (bytes "n") b t (pos (0 + (3 + 65536)), pos (0 + (3 + 65536)))))
node_messages-collide_example =
    node_messages-collide (pos 7) (bytes "n") (file_intervals 0 70000) 3 (pos (0 + 3), pos (0 + 3))
      (pos (0 + (3 + 65536)), pos (0 + (3 + 65536))) (file_interval_at 0 70000 3 (omega arith))
      (file_interval_at 0 70000 (3 + 65536) (omega arith))
