-- ===== src/Wfmodel/NodeHistory/RunStatus.antt =====
-- The status of a run and of its nodes, FigureOutRunStatusAndAffectedNodesStatusesFromNodeEvents
-- of pkg/wfmodel/node_history.go.
use capillaries.Prelude.{
  ◌≡◌, arith, true, false, ◌&&◌, Option, none, some, List, [], ◌∷◌, if◌then◌else◌, All, any, inl,
  inr, ◌⊎◌, Bool-cases,
}
use capillaries.Prelude.Int.{ℤ, int_lt, int_eq, ◌<ℤ◌, ◌≤ℤ◌, eq_of_parts}
use capillaries.Prelude.Text.{Text, text_eq, eq_of_text_eq}
use capillaries.Prelude.Assoc.{lookup, put, lookup-put, values, All-lookup}
use capillaries.Wfmodel.Status.{
  NodeBatchStatus, node_batch_none, node_batch_start, node_batch_success, node_batch_fail,
  node_batch_run_stop_received,
}
use capillaries.Wfmodel.NodeHistory.{
  NodeHistoryEvent, NodeStatusMap, next_status, note_status, node_status_loop, affected_to_none,
  highest, lowest, combined_status, figure_out_run_status,
}

-- The statuses of the events of a run and a node, in order.
abbrev pub statuses_of : ℤ → Text → List NodeHistoryEvent → List NodeBatchStatus
statuses_of run_id n [] = []
statuses_of run_id n (e ∷ es) =
    let rest = statuses_of run_id n es in
    if int_eq e.run_id run_id && text_eq e.script_node n then e.status ∷ rest else rest

-- The last status, or the first stop.
abbrev pub last_or_stop : NodeBatchStatus → List NodeBatchStatus → NodeBatchStatus
last_or_stop last [] = last
last_or_stop last (s ∷ l) =
    last_or_stop (if int_eq last node_batch_run_stop_received then last else s) l

next_status_lem :
    (last s : NodeBatchStatus)
    → next_status last s ≡ (if int_eq last node_batch_run_stop_received then last else s)
unfolding next_status
next_status_lem last s = ground arith

note_status-same :
    (e : NodeHistoryEvent) (m : NodeStatusMap) (n : Text) (s : NodeBatchStatus)
    → text_eq e.script_node n ≡ true
    → lookup n m ≡ some s
    → lookup n (note_status e (lookup e.script_node m) m)
      ≡ some (if int_eq s node_batch_run_stop_received then s else e.status)
note_status-same e m n s u h =
    let here : lookup e.script_node m ≡ some s = rw (eq_of_text_eq e.script_node n u) h in
    rw here (
      unfold note_status in
      ground
        (arith, lookup-put e.script_node n (next_status s e.status) m, next_status_lem s e.status))

lookup-node_status_loop :
    (es : List NodeHistoryEvent) (run_id : ℤ) (m : NodeStatusMap) (n : Text) (s : NodeBatchStatus)
    → lookup n m ≡ some s
    → lookup n (node_status_loop es run_id m) ≡ some (last_or_stop s (statuses_of run_id n es))
unfolding node_status_loop
lookup-node_status_loop [] run_id m n s h = h
lookup-node_status_loop (e ∷ es) run_id m n s h = elim (Bool-cases (int_eq e.run_id run_id)) [
  | inr f ↦ rw f (lookup-node_status_loop es run_id m n s h)
  | inl t ↦ elim (Bool-cases (text_eq e.script_node n)) [
    | inr f ↦
        rw (t, f)
          (lookup-node_status_loop es run_id (note_status e (lookup e.script_node m) m) n s
            (other (lookup e.script_node m) f))
    | inl u ↦
        rw (t, u)
          (lookup-node_status_loop es run_id (note_status e (lookup e.script_node m) m) n
            (if int_eq s node_batch_run_stop_received then s else e.status)
            (note_status-same e m n s u h))
  ]
]
  where
    other :
        (o : Option NodeBatchStatus)
        → text_eq e.script_node n ≡ false
        → lookup n (note_status e o m) ≡ some s
    other none f = unfold note_status in ground (arith, lookup-put e.script_node n e.status m)
    other (some l) f =
        unfold note_status in ground (arith, lookup-put e.script_node n (next_status l e.status) m)

affected-none :
    (nodes : List Text) (m : NodeStatusMap) (n : Text)
    → lookup n m ≡ some node_batch_none
    → lookup n (affected_to_none nodes m) ≡ some node_batch_none
unfolding affected_to_none
affected-none [] m n h = h
affected-none (a ∷ nodes) m n h =
    affected-none nodes (put a node_batch_none m) n
      (ground (arith, lookup-put a n node_batch_none m))

lookup-affected_to_none :
    (nodes : List Text) (m : NodeStatusMap) (n : Text)
    → any (λ a. text_eq a n) nodes ≡ true
    → lookup n (affected_to_none nodes m) ≡ some node_batch_none
unfolding affected_to_none
lookup-affected_to_none [] m n h = cc
lookup-affected_to_none (a ∷ nodes) m n h = elim (Bool-cases (text_eq a n)) [
  | inl t ↦
      affected-none nodes (put a node_batch_none m) n
        (ground (arith, lookup-put a n node_batch_none m))
  | inr f ↦ lookup-affected_to_none nodes (put a node_batch_none m) n (ground arith)
]

-- The status found for an affected node is that of its last event in the run, or stop received as
-- soon as one of its events has that; without an event it is none.
pub affected_status_is_last :
    (es : List NodeHistoryEvent) (run_id : ℤ) (affected : List Text) (n : Text)
    → any (λ a. text_eq a n) affected ≡ true
    → lookup n (figure_out_run_status es run_id affected).1
      ≡ some (last_or_stop node_batch_none (statuses_of run_id n es))
unfolding figure_out_run_status
affected_status_is_last es run_id affected n h =
    lookup-node_status_loop es run_id (affected_to_none affected []) n node_batch_none
      (lookup-affected_to_none affected [] n h)

-- The bounds that the two folds over the statuses give.
lowest-le : (l : List NodeBatchStatus) (h : NodeBatchStatus) → lowest l h ≤ℤ h
unfolding lowest
lowest-le [] h = omega arith
lowest-le (s ∷ l) h = ground (arith, lowest-le l (if int_lt s h then s else h))

highest-ge : (l : List NodeBatchStatus) (h : NodeBatchStatus) → h ≤ℤ highest l h
unfolding highest
highest-ge [] h = omega arith
highest-ge (s ∷ l) h = ground (arith, highest-ge l (if int_lt h s then s else h))

lowest-le-All : (m : NodeStatusMap) (h : NodeBatchStatus) → All (λ e. lowest (values m) h ≤ℤ e.1) m
unfolding lowest
lowest-le-All [] h = tt
lowest-le-All ((n, s) ∷ m) h = (
  ground (arith, lowest-le (values m) (if int_lt s h then s else h)),
  lowest-le-All m (if int_lt s h then s else h),
)

highest-ge-All :
    (m : NodeStatusMap) (h : NodeBatchStatus) → All (λ e. e.1 ≤ℤ highest (values m) h) m
unfolding highest
highest-ge-All [] h = tt
highest-ge-All ((n, s) ∷ m) h = (
  ground (arith, highest-ge (values m) (if int_lt h s then s else h)),
  highest-ge-All m (if int_lt h s then s else h),
)

-- A combined status beyond start is the highest, and then every status of the map is beyond start
-- and not above it.
combined_bounds :
    (m : NodeStatusMap) (n : Text) (s : NodeBatchStatus)
    → node_batch_start <ℤ combined_status m
    → lookup n m ≡ some s
    → (node_batch_start <ℤ s) × (s ≤ℤ combined_status m)
unfolding combined_status
combined_bounds m n s h found =
    let low =
      All-lookup (λ k v. lowest (values m) node_batch_run_stop_received ≤ℤ v) n m s
        (lowest-le-All m node_batch_run_stop_received) found in
    let high =
      All-lookup (λ k v. v ≤ℤ highest (values m) node_batch_none) n m s
        (highest-ge-All m node_batch_none) found in
    ground (arith, low, high)

all_succeeded :
    (m : NodeStatusMap) (n : Text) (s : NodeBatchStatus)
    → combined_status m ≡ node_batch_success
    → lookup n m ≡ some s
    → s ≡ node_batch_success
all_succeeded m n s h found =
    let b = combined_bounds m n s (rw h (omega arith)) found in
    let top : s ≤ℤ node_batch_success = rw h at b.1 in
    eq_of_parts s node_batch_success (omega (arith, b.0, top))

succeeded_or_failed :
    (m : NodeStatusMap) (n : Text) (s : NodeBatchStatus)
    → combined_status m ≡ node_batch_fail
    → lookup n m ≡ some s
    → (s ≡ node_batch_success) ⊎ (s ≡ node_batch_fail)
succeeded_or_failed m n s h found =
    let b = combined_bounds m n s (rw h (omega arith)) found in
    let top : s ≤ℤ node_batch_fail = rw h at b.1 in
    elim (Bool-cases (int_eq s node_batch_success)) [
      | inl e ↦ inl (eq_of_parts s node_batch_success (ground arith))
      | inr e ↦ inr (eq_of_parts s node_batch_fail (ground (arith, b.0, top)))
    ]

-- When the run is found to be a success, the last event of every affected node is a success, and
-- none received a stop.
pub run_success_means_all_succeeded :
    (es : List NodeHistoryEvent) (run_id : ℤ) (affected : List Text) (n : Text)
    → (figure_out_run_status es run_id affected).0 ≡ node_batch_success
    → any (λ a. text_eq a n) affected ≡ true
    → last_or_stop node_batch_none (statuses_of run_id n es) ≡ node_batch_success
run_success_means_all_succeeded es run_id affected n h a =
    all_succeeded (figure_out_run_status es run_id affected).1 n
      (last_or_stop node_batch_none (statuses_of run_id n es)) (unfold figure_out_run_status in h)
      (affected_status_is_last es run_id affected n a)

-- When the run is found to have failed, the last event of every affected node is a success or a
-- fail: no node is still to run, and none received a stop.
pub run_fail_means_all_ended :
    (es : List NodeHistoryEvent) (run_id : ℤ) (affected : List Text) (n : Text)
    → (figure_out_run_status es run_id affected).0 ≡ node_batch_fail
    → any (λ a. text_eq a n) affected ≡ true
    → (last_or_stop node_batch_none (statuses_of run_id n es) ≡ node_batch_success)
      ⊎ (last_or_stop node_batch_none (statuses_of run_id n es) ≡ node_batch_fail)
run_fail_means_all_ended es run_id affected n h a =
    succeeded_or_failed (figure_out_run_status es run_id affected).1 n
      (last_or_stop node_batch_none (statuses_of run_id n es)) (unfold figure_out_run_status in h)
      (affected_status_is_last es run_id affected n a)
