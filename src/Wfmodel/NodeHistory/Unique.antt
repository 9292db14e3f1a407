-- ===== src/Wfmodel/NodeHistory/Unique.antt =====
-- NodeHistoryRowsToEvents of pkg/wfmodel/node_history.go keeps one event for each run, node and
-- status, although every batch of a node writes a start.
use mathlib.Core.Path.{subst}
use capillaries.Prelude.{
  ℕ, suc, ◌≤◌, ◌≡◌, refl, arith, Bool, true, false, ◌&&◌, List, [], ◌∷◌, ◌++◌, ◌==◌, All, count_if,
  count_if-append, inl, inr, Bool-cases, if◌then◌else◌, if_ind,
}
use capillaries.Prelude.Int.{ℤ, pos, negsuc, int_eq}
use capillaries.Prelude.Text.{Text, text_eq, text_eq_refl, eq_of_text_eq}
use capillaries.Prelude.Sort.{count_if-sort_func}
use capillaries.Wfmodel.Row.{Row, ok, >>=-eq_ok, ok_injective}
use capillaries.Wfmodel.Status.{
  NodeBatchStatus, node_batch_start, node_batch_success, node_batch_fail,
  node_batch_run_stop_received,
}
use capillaries.Wfmodel.NodeHistory.{
  NodeHistoryEvent, NodeEventMap, NodeEventMaps, no_node_events, same_node,
  earliest_event_to_node_map, last_event_to_node_map, note_node_event, node_rows_loop,
  node_event_before, collect_node_events, node_history_rows_to_events,
  new_node_history_event_from_map, node_history_event_all_fields,
}

abbrev of_node : ℤ → Text → NodeHistoryEvent → Bool
of_node run n e = int_eq e.run_id run && text_eq e.script_node n

abbrev pub is_event : ℤ → Text → NodeBatchStatus → NodeHistoryEvent → Bool
is_event run n s e = int_eq e.run_id run && (text_eq e.script_node n && int_eq e.status s)

of_node-same :
    (run : ℤ) (n : Text) (o e : NodeHistoryEvent)
    → same_node o e ≡ true
    → of_node run n o ≡ of_node run n e
of_node-same run n o e h =
    let eq : o.script_node ≡ e.script_node =
      eq_of_text_eq o.script_node e.script_node (ground arith) in
    rw eq (ground arith)

of_node-differ :
    (run : ℤ) (n : Text) (o e : NodeHistoryEvent)
    → same_node o e ≡ false
    → of_node run n o ≡ true
    → of_node run n e ≡ false
of_node-differ run n o e h ho = elim (Bool-cases (of_node run n e)) [
  | inr no_match ↦ no_match
  | inl he ↦
      let eo : o.script_node ≡ n = eq_of_text_eq o.script_node n (ground arith) in
      let ee : e.script_node ≡ n = eq_of_text_eq e.script_node n (ground arith) in
      let same : text_eq o.script_node e.script_node ≡ true = rw (eo, ee) (text_eq_refl n) in
      absurd (ground (arith, same))
]

-- How many events of a node the map has after one more, if it had `c`.
abbrev joined : Bool → ℕ → ℕ
joined b c = if b then (if c == 0 then 1 else c) else c

count_if-earliest :
    (run : ℤ) (n : Text) (e : NodeHistoryEvent) (m : NodeEventMap)
    → count_if (of_node run n) (earliest_event_to_node_map e m)
      ≡ joined (of_node run n e) (count_if (of_node run n) m)
unfolding earliest_event_to_node_map
count_if-earliest run n e [] = ground arith
count_if-earliest run n e (o ∷ m) = elim (Bool-cases (same_node o e)) [
  | inl h ↦ ground (arith, of_node-same run n o e h)
  | inr h ↦ elim (Bool-cases (of_node run n o)) [
    | inl ho ↦ ground (arith, count_if-earliest run n e m, of_node-differ run n o e h ho)
    | inr ho ↦ ground (arith, count_if-earliest run n e m)
  ]
]

count_if-last :
    (run : ℤ) (n : Text) (e : NodeHistoryEvent) (m : NodeEventMap)
    → count_if (of_node run n) (last_event_to_node_map e m)
      ≡ joined (of_node run n e) (count_if (of_node run n) m)
unfolding last_event_to_node_map
count_if-last run n e [] = ground arith
count_if-last run n e (o ∷ m) = elim (Bool-cases (same_node o e)) [
  | inl h ↦ ground (arith, of_node-same run n o e h)
  | inr h ↦ elim (Bool-cases (of_node run n o)) [
    | inl ho ↦ ground (arith, count_if-last run n e m, of_node-differ run n o e h ho)
    | inr ho ↦ ground (arith, count_if-last run n e m)
  ]
]

abbrev HasStatus : NodeBatchStatus → NodeEventMap → Type 0
HasStatus s m = All (λ e. int_eq e.status s ≡ true) m

earliest-HasStatus :
    (s : NodeBatchStatus) (e : NodeHistoryEvent) (m : NodeEventMap)
    → int_eq e.status s ≡ true
    → HasStatus s m
    → HasStatus s (earliest_event_to_node_map e m)
unfolding earliest_event_to_node_map
earliest-HasStatus s e [] h hm = (h, tt)
earliest-HasStatus s e (o ∷ m) h hm = elim (Bool-cases (same_node o e)) [
  | inl y ↦ rw y (ground (arith, h, hm.0), hm.1)
  | inr y ↦ rw y (hm.0, earliest-HasStatus s e m h hm.1)
]

last-HasStatus :
    (s : NodeBatchStatus) (e : NodeHistoryEvent) (m : NodeEventMap)
    → int_eq e.status s ≡ true
    → HasStatus s m
    → HasStatus s (last_event_to_node_map e m)
unfolding last_event_to_node_map
last-HasStatus s e [] h hm = (h, tt)
last-HasStatus s e (o ∷ m) h hm = elim (Bool-cases (same_node o e)) [
  | inl y ↦ rw y (ground (arith, h, hm.0), hm.1)
  | inr y ↦ rw y (hm.0, last-HasStatus s e m h hm.1)
]

-- The events of a map have its status, and no node of a run has two of them.
abbrev Single : NodeBatchStatus → NodeEventMap → Type 0
Single s m = HasStatus s m × ((run : ℤ) (n : Text) → count_if (of_node run n) m ≤ 1)

earliest-Single :
    (s : NodeBatchStatus) (e : NodeHistoryEvent) (m : NodeEventMap)
    → int_eq e.status s ≡ true
    → Single s m
    → Single s (earliest_event_to_node_map e m)
earliest-Single s e m h (hm, u) =
    (earliest-HasStatus s e m h hm, λ run n. ground (arith, count_if-earliest run n e m, u run n))

last-Single :
    (s : NodeBatchStatus) (e : NodeHistoryEvent) (m : NodeEventMap)
    → int_eq e.status s ≡ true
    → Single s m
    → Single s (last_event_to_node_map e m)
last-Single s e m h (hm, u) =
    (last-HasStatus s e m h hm, λ run n. ground (arith, count_if-last run n e m, u run n))

record AllSingle (m : NodeEventMaps) : Type 0 where
  starts : Single node_batch_start m.starts
  successes : Single node_batch_success m.successes
  fails : Single node_batch_fail m.fails
  stops : Single node_batch_run_stop_received m.stops

note_node_event-AllSingle :
    (e : NodeHistoryEvent) (m : NodeEventMaps) → AllSingle m → AllSingle (note_node_event e m)
unfolding note_node_event
note_node_event-AllSingle e m a =
    if_ind AllSingle (int_eq e.status node_batch_start) _ _
      (λ h. record {
        starts = earliest-Single node_batch_start e m.starts h a.starts;
        successes = a.successes;
        fails = a.fails;
        stops = a.stops;
      })
      (λ _.
        if_ind AllSingle (int_eq e.status node_batch_success) _ _
          (λ h. record {
            starts = a.starts;
            successes = last-Single node_batch_success e m.successes h a.successes;
            fails = a.fails;
            stops = a.stops;
          })
          (λ _.
            if_ind AllSingle (int_eq e.status node_batch_fail) _ _
              (λ h. record {
                starts = a.starts;
                successes = a.successes;
                fails = last-Single node_batch_fail e m.fails h a.fails;
                stops = a.stops;
              })
              (λ _.
                if_ind AllSingle (int_eq e.status node_batch_run_stop_received) _ _
                  (λ h. record {
                    starts = a.starts;
                    successes = a.successes;
                    fails = a.fails;
                    stops = last-Single node_batch_run_stop_received e m.stops h a.stops;
                  })
                  (λ _. a))))

node_rows_loop-AllSingle :
    (rows : List Row) (m t : NodeEventMaps)
    → AllSingle m
    → node_rows_loop rows m ≡ ok t
    → AllSingle t
unfolding node_rows_loop
node_rows_loop-AllSingle [] m t a h = subst AllSingle (ok_injective h) a
node_rows_loop-AllSingle (r ∷ rows) m t a h =
    let (e, _, rest) =
      >>=-eq_ok (new_node_history_event_from_map r node_history_event_all_fields)
        (λ e. node_rows_loop rows (note_node_event e m)) h in
    node_rows_loop-AllSingle rows (note_node_event e m) t (note_node_event-AllSingle e m a) rest

same_status : (e s s' : NodeBatchStatus) → int_eq e s ≡ true → int_eq e s' ≡ int_eq s s'
same_status (pos e) s s' h = ground arith
same_status (negsuc e) s s' h = ground arith

is_event-of_node :
    (run : ℤ) (n : Text) (s s' : NodeBatchStatus) (e : NodeHistoryEvent)
    → int_eq e.status s ≡ true
    → is_event run n s' e ≡ (if int_eq s s' then of_node run n e else false)
is_event-of_node run n s s' e h =
    rw (same_status e.status s s' h)
      (shuffle (int_eq e.run_id run) (text_eq e.script_node n) (int_eq s s'))
  where
    shuffle : (a b c : Bool) → (a && (b && c)) ≡ (if c then a && b else false)
    shuffle a b c = ground arith

count_if-is_event :
    (run : ℤ) (n : Text) (s s' : NodeBatchStatus) (m : NodeEventMap)
    → HasStatus s m
    → count_if (is_event run n s') m ≡ (if int_eq s s' then count_if (of_node run n) m else 0)
count_if-is_event run n s s' [] h = if_ind (λ k. 0 ≡ k) (int_eq s s') 0 0 (λ _. refl) (λ _. refl)
count_if-is_event run n s s' (e ∷ m) h =
    rw (is_event-of_node run n s s' e h.0, count_if-is_event run n s s' m h.1)
      (choose (int_eq s s') (of_node run n e) (count_if (of_node run n) m))
  where
    choose :
        (c o : Bool) (k : ℕ)
        → (if (if c then o else false) then suc (if c then k else 0) else (if c then k else 0))
          ≡ (if c then (if o then suc k else k) else 0)
    choose c o k = ground arith

count_if-Single :
    (run : ℤ) (n : Text) (s s' : NodeBatchStatus) (m : NodeEventMap)
    → Single s m
    → count_if (is_event run n s') m ≤ (if int_eq s s' then 1 else 0)
count_if-Single run n s s' m (h, u) =
    rw (count_if-is_event run n s s' m h) (bound (int_eq s s') (u run n))
  where
    bound : (c : Bool) {k : ℕ} → k ≤ 1 → (if c then k else 0) ≤ (if c then 1 else 0)
    bound c h = ground arith

collect_node_events_unique :
    (run : ℤ) (n : Text) (s : NodeBatchStatus) (m : NodeEventMaps)
    → AllSingle m
    → count_if (is_event run n s) (collect_node_events m) ≤ 1
unfolding collect_node_events
collect_node_events_unique run n s m a =
    let p = is_event run n s in
    ground (
      arith,
      count_if-sort_func node_event_before p (m.starts ++ (m.successes ++ (m.fails ++ m.stops))),
      count_if-append p m.starts (m.successes ++ (m.fails ++ m.stops)),
      count_if-append p m.successes (m.fails ++ m.stops),
      count_if-append p m.fails m.stops,
      count_if-Single run n node_batch_start s m.starts a.starts,
      count_if-Single run n node_batch_success s m.successes a.successes,
      count_if-Single run n node_batch_fail s m.fails a.fails,
      count_if-Single run n node_batch_run_stop_received s m.stops a.stops,
    )

-- Of the events that rows give, no two are of the same run, node and status.
pub node_events_unique :
    (rows : List Row) (es : List NodeHistoryEvent) (run : ℤ) (n : Text) (s : NodeBatchStatus)
    → node_history_rows_to_events rows ≡ ok es
    → count_if (is_event run n s) es ≤ 1
unfolding node_history_rows_to_events
node_events_unique rows es run n s h =
    let (m, loop, same) =
      >>=-eq_ok (node_rows_loop rows no_node_events) (λ m. ok (collect_node_events m)) h in
    let nothing : AllSingle no_node_events = record {
      starts = (tt, λ run n. ground arith);
      successes = (tt, λ run n. ground arith);
      fails = (tt, λ run n. ground arith);
      stops = (tt, λ run n. ground arith);
    } in
    subst (λ es. count_if (is_event run n s) es ≤ 1) (ok_injective same)
      (collect_node_events_unique run n s m
        (node_rows_loop-AllSingle rows no_node_events m nothing loop))
