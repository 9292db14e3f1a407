-- ===== src/Api/RunOrder.antt =====
-- What keeps the order of the calls of StartRun, pkg/api/run.go.
use mathlib.Core.Path.{subst}
use capillaries.Prelude.{
  ◌≡◌, ◌⊎◌, false, refl, sym, All-append, All-map, List, [], ◌∷◌, ◌++◌, Option, none, some, All,
  map, if_ind,
}
use capillaries.Prelude.Int.{ℤ}
use capillaries.Prelude.Text.{Text}
use capillaries.Wfmodel.Status.{run_start}
use capillaries.Api.StartRun.{
  RunCall, RunEnv, RunMessage, RunTrace, StartNode, Started, all_table_calls, create_data_table,
  create_idx_table, find_start_node, send, send_bulk, set_run_status, table_calls, try_all,
  try_call,
}

-- The run that a call starts, and the messages that it sends.
abbrev pub Starts : ℤ → RunCall → Type 0
Starts id c = c ≡ set_run_status id run_start

abbrev pub sent_by : RunCall → List RunMessage
sent_by (send_bulk msgs) = msgs
sent_by (send m) = m ∷ []
sent_by _ = []

module _ (env : RunEnv) where
  -- Some call of the trace that has not failed is one of those that are asked for.
  abbrev pub Did : (RunCall → Type 0) → RunTrace → Type 0
  Did P [] = ⊥
  Did P (c ∷ t) = (P c × (env.fails c t ≡ false)) ⊎ Did P t

  -- Each message is sent after its run has been marked started, by a call that did not fail.
  abbrev pub IsOrdered : RunTrace → Type 0
  IsOrdered [] = Unit
  IsOrdered (c ∷ t) = All (λ m. Did (Starts m.run_id) t) (sent_by c) × IsOrdered t

  pub try_call_ind :
      (Q : Started → Type 0) (c : RunCall) (next : RunTrace → Started) (t : RunTrace)
      → Q (none, c ∷ t)
      → (env.fails c t ≡ false → Q (next (c ∷ t)))
      → Q (try_call env c next t)
  unfolding try_call
  try_call_ind Q c next t h g = if_ind Q (env.fails c t) (none, c ∷ t) (next (c ∷ t)) (λ _. h) g

  -- Calls that keep a property of the trace.
  pub try_all_ind :
      (P : RunTrace → Type 0) (Q : Started → Type 0) (cs : List RunCall) (next : RunTrace → Started)
      (t : RunTrace)
      → All (λ c. (u : RunTrace) → P u → P (c ∷ u)) cs
      → ((u : RunTrace) → P u → Q (none, u))
      → ((u : RunTrace) → P u → Q (next u))
      → P t
      → Q (try_all env cs next t)
  unfolding try_all
  try_all_ind P Q [] next t keeps fails goes p = goes t p
  try_all_ind P Q (c ∷ cs) next t keeps fails goes p =
      try_call_ind Q c (try_all env cs next) t (fails (c ∷ t) (keeps.0 t p))
        (λ _. try_all_ind P Q cs next (c ∷ t) keeps.1 fails goes (keeps.0 t p))

-- Statements that create tables send nothing.
abbrev pub IsSilent : RunCall → Type 0
IsSilent c = sent_by c ≡ []

pub silent-IsOrdered :
    (env : RunEnv) (c : RunCall) (u : RunTrace)
    → IsSilent c
    → IsOrdered env u
    → IsOrdered env (c ∷ u)
silent-IsOrdered env c u s o =
    (subst (λ ms. All (λ m. Did env (Starts m.run_id) u) ms) (sym s) tt, o)

map-IsSilent : (id : ℤ) (names : List Text) → All IsSilent (map (λ i. create_idx_table i id) names)
map-IsSilent id [] = tt
map-IsSilent id (i ∷ names) = (refl, map-IsSilent id names)

creator-IsSilent :
    (id : ℤ) (table : Option Text) (names : List Text)
    → All IsSilent (elim table [
      | none ↦ []
      | some t ↦ create_data_table t id ∷ map (λ i. create_idx_table i id) names
    ])
creator-IsSilent id none names = tt
creator-IsSilent id (some t) names = (refl, map-IsSilent id names)

table_calls-IsSilent : (id : ℤ) (node : StartNode) → All IsSilent (table_calls id node)
unfolding table_calls
table_calls-IsSilent id node = creator-IsSilent id node.graph.created_table node.indexes

found-IsSilent :
    (id : ℤ) (found : Option StartNode) (rest : List RunCall)
    → All IsSilent rest
    → All IsSilent (elim found [ none ↦ rest | some node ↦ table_calls id node ++ rest ])
found-IsSilent id none rest h = h
found-IsSilent id (some node) rest h =
    All-append IsSilent (table_calls id node) rest (table_calls-IsSilent id node) h

pub all_table_calls-IsSilent :
    (id : ℤ) (nodes : List StartNode) (affected : List Text)
    → All IsSilent (all_table_calls id nodes affected)
unfolding all_table_calls
all_table_calls-IsSilent id nodes [] = tt
all_table_calls-IsSilent id nodes (k ∷ affected) =
    found-IsSilent id (find_start_node k nodes) (all_table_calls id nodes affected)
      (all_table_calls-IsSilent id nodes affected)

pub silent-keeps :
    (env : RunEnv) (cs : List RunCall)
    → All IsSilent cs
    → All (λ c. (u : RunTrace) → IsOrdered env u → IsOrdered env (c ∷ u)) cs
silent-keeps env cs h =
    All-map IsSilent (λ c. (u : RunTrace) → IsOrdered env u → IsOrdered env (c ∷ u))
      (λ c s u o. silent-IsOrdered env c u s o) cs h
