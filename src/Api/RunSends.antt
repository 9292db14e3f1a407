-- ===== src/Api/RunSends.antt =====
-- The messages of StartRun, pkg/api/run.go: of which run they are, and that all of them are sent.
use mathlib.Core.Path.{subst}
use capillaries.Prelude.{
  ◌≡◌, refl, sym, All-append, All-map, List, [], ◌∷◌, ◌++◌, Option, none, some, Any, All, map,
  length, ℕ, suc, if_ind, inl, inr, arith,
}
use capillaries.Prelude.Int.{ℤ, pos, int_lt}
use capillaries.Prelude.Text.{Text}
use capillaries.Wfmodel.Status.{run_start}
use capillaries.Sc.Batches.{get_token_intervals_by_number_of_batches}
use capillaries.Api.StartRun.{
  RunEnv, RunMessage, RunTrace, StartNode, Started, all_messages, find_start_node, send, send_bulk,
  send_messages, set_run_status, set_status, start_messages, try_all, try_call, verify_tables,
  verify_tables_ready, messages_loop, node_messages,
}
use capillaries.Api.RunOrder.{Starts, sent_by, Did, IsOrdered, try_call_ind}

-- The messages that StartRun builds are of its run.
abbrev pub OfRun : ℤ → RunMessage → Type 0
OfRun id m = m.run_id ≡ id

messages_loop-OfRun :
    (id : ℤ) (name : Text) (total idx : ℕ) (intervals : List (ℤ × ℤ))
    → All (OfRun id) (messages_loop id name total idx intervals)
unfolding messages_loop
messages_loop-OfRun id name total idx [] = tt
messages_loop-OfRun id name total idx (v ∷ intervals) =
    (refl, messages_loop-OfRun id name total (suc idx) intervals)

no_messages :
    (msgs : List RunMessage) → ◌≡◌ {A = Option (List RunMessage)} (some []) (some msgs) → [] ≡ msgs
no_messages msgs h = ground arith

intervals_split :
    (id : ℤ) (k : Text) (found : Option (List (ℤ × ℤ))) (rest : Option (List RunMessage))
    (msgs : List RunMessage)
    → elim found [
      | none ↦ none
      | some intervals ↦ elim rest [
        | none ↦ none
        | some more ↦ some (node_messages id k intervals ++ more)
      ]
    ]
      ≡ some msgs
    → (p : List (ℤ × ℤ) × List RunMessage) × (rest ≡ some p.1)
      × (msgs ≡ node_messages id k p.0 ++ p.1)
intervals_split id k none rest msgs h = cc
intervals_split id k (some intervals) none msgs h = cc
intervals_split id k (some intervals) (some more) msgs h = ((intervals, more), refl, ground arith)

messages_split :
    (id : ℤ) (k : Text) (found : Option StartNode) (rest : Option (List RunMessage))
    (msgs : List RunMessage)
    → elim found [
      | none ↦ none
      | some node ↦ elim (get_token_intervals_by_number_of_batches node.reader) [
        | none ↦ none
        | some intervals ↦ elim rest [
          | none ↦ none
          | some more ↦ some (node_messages id k intervals ++ more)
        ]
      ]
    ]
      ≡ some msgs
    → (p : List (ℤ × ℤ) × List RunMessage) × (rest ≡ some p.1)
      × (msgs ≡ node_messages id k p.0 ++ p.1)
messages_split id k none rest msgs h = cc
messages_split id k (some node) rest msgs h =
    intervals_split id k (get_token_intervals_by_number_of_batches node.reader) rest msgs h

pub all_messages-OfRun :
    (id : ℤ) (nodes : List StartNode) (affected : List Text) (msgs : List RunMessage)
    → all_messages id nodes affected ≡ some msgs
    → All (OfRun id) msgs
unfolding all_messages
all_messages-OfRun id nodes [] msgs h = subst (All (OfRun id)) (no_messages msgs h) tt
all_messages-OfRun id nodes (k ∷ affected) msgs h =
    let split =
      messages_split id k (find_start_node k nodes) (all_messages id nodes affected) msgs h in
    subst (All (OfRun id)) (sym split.2) (
      All-append (OfRun id) (node_messages id k split.0.0) split.0.1
        (messages_loop-OfRun id k (length split.0.0) 0 split.0.0)
        (all_messages-OfRun id nodes affected split.0.1 split.1))

-- Each message of a list has been sent, by a call that did not fail.
abbrev pub Sent : RunEnv → List RunMessage → RunTrace → Type 0
Sent env msgs t = All (λ m. Did env (λ c. Any (λ x. x ≡ m) (sent_by c)) t) msgs

-- The run has been marked started and its messages have been sent.
abbrev pub IsStarted : RunEnv → ℤ → List RunMessage → RunTrace → Type 0
IsStarted env id msgs t = Did env (Starts id) t × Sent env msgs t

abbrev Outcome : RunEnv → ℤ → List RunMessage → Started → Type 0
Outcome env id msgs r =
    IsOrdered env r.1 × ((j : ℤ) → r.0 ≡ some j → (j ≡ id) × IsStarted env id msgs r.1)

each_of : {A : Type 0} (xs : List A) → All (λ x. Any (λ y. y ≡ x) xs) xs
each_of [] = tt
each_of (x ∷ xs) = (
  inl refl,
  All-map (λ y. Any (λ z. z ≡ y) xs) (λ y. Any (λ z. z ≡ y) (x ∷ xs)) (λ y m. inr m) xs
      (each_of xs),
)

-- Messages of a run that has been started may be sent.
may_send :
    (env : RunEnv) (id : ℤ) (msgs : List RunMessage) (t : RunTrace)
    → All (OfRun id) msgs
    → Did env (Starts id) t
    → All (λ m. Did env (Starts m.run_id) t) msgs
may_send env id msgs t o s =
    All-map (OfRun id) (λ m. Did env (Starts m.run_id) t)
      (λ m e. subst (λ j. Did env (Starts j) t) (sym e) s) msgs o

-- A property of some call is kept as calls are made.
sends_one_by_one :
    (env : RunEnv) (id : ℤ) (msgs before : List RunMessage) (t : RunTrace)
    → All (OfRun id) msgs
    → IsOrdered env t
    → Did env (Starts id) t
    → Sent env before t
    → let r = try_all env (map send msgs) (λ u. (some id, u)) t in
      IsOrdered env r.1
      × ((j : ℤ)
          → r.0 ≡ some j
          → (j ≡ id) × Did env (Starts id) r.1 × Sent env before r.1 × Sent env msgs r.1)
unfolding try_all
sends_one_by_one env id [] before t a o s b = (o, λ j e. (ground arith, s, b, tt))
sends_one_by_one env id (m ∷ msgs) before t a o s b =
    try_call_ind env
      (λ r.
        IsOrdered env r.1
        × ((j : ℤ)
            → r.0 ≡ some j
            → (j ≡ id) × Did env (Starts id) r.1 × Sent env before r.1 × Sent env (m ∷ msgs) r.1))
      (send m) (try_all env (map send msgs) (λ u. (some id, u))) t
      ((may_send env id (m ∷ []) t (a.0, tt) s, o), λ j e. cc)
      (λ ok.
        let rest =
          sends_one_by_one env id msgs (m ∷ before) (send m ∷ t) a.1
            (may_send env id (m ∷ []) t (a.0, tt) s, o) (inr s)
            (
              inl (inl refl, ok),
              All-map (λ x. Did env (λ c. Any (λ y. y ≡ x) (sent_by c)) t)
                  (λ x. Did env (λ c. Any (λ y. y ≡ x) (sent_by c)) (send m ∷ t)) (λ x h. inr h)
                  before b,
            ) in
        (
          rest.0,
          λ j e. let found = rest.1 j e in (found.0, found.1, found.2.1, (found.2.0, found.3)),
        ))

send_messages-Outcome :
    (env : RunEnv) (id : ℤ) (msgs : List RunMessage) (t : RunTrace)
    → All (OfRun id) msgs
    → IsOrdered env t
    → Did env (Starts id) t
    → Outcome env id msgs (send_messages env msgs (λ u. (some id, u)) t)
unfolding send_messages
send_messages-Outcome env id msgs t a o s =
    if_ind (λ f. Outcome env id msgs (f t)) env.supports_send_bulk
      (try_call env (send_bulk msgs) (λ u. (some id, u)))
      (try_all env (map send msgs) (λ u. (some id, u)))
      (λ _.
        try_call_ind env (Outcome env id msgs) (send_bulk msgs) (λ u. (some id, u)) t
          ((may_send env id msgs t a s, o), λ j e. cc)
          (λ ok. (
            (may_send env id msgs t a s, o),
            λ j e. (
              ground arith,
              (
                inr s,
                All-map (λ m. Any (λ x. x ≡ m) msgs)
                    (λ m. Did env (λ c. Any (λ x. x ≡ m) (sent_by c)) (send_bulk msgs ∷ t))
                    (λ m h. inl (h, ok)) msgs (each_of msgs),
              ),
            ),
          )))
      (λ _.
        let sent = sends_one_by_one env id msgs [] t a o s tt in
        (sent.0, λ j e. let r = sent.1 j e in (r.0, (r.1, r.3))))

-- The messages that were built have been sent, if an id is returned.
abbrev pub Finished : RunEnv → ℤ → Option (List RunMessage) → Started → Type 0
Finished env id built r =
    IsOrdered env r.1
    × ((j : ℤ)
        → r.0 ≡ some j
        → (j ≡ id) × (msgs : List RunMessage) × (built ≡ some msgs) × IsStarted env id msgs r.1)

start_messages-Finished :
    (env : RunEnv) (id : ℤ) (built : Option (List RunMessage)) (t : RunTrace)
    → ((msgs : List RunMessage) → built ≡ some msgs → All (OfRun id) msgs)
    → IsOrdered env t
    → Finished env id built (start_messages env id built t)
unfolding start_messages set_status
start_messages-Finished env id none t a o = (o, λ j e. cc)
start_messages-Finished env id (some msgs) t a o =
    if_ind (Finished env id (some msgs)) (int_lt (pos 0) id)
      (try_call env (set_run_status id run_start) (send_messages env msgs (λ u. (some id, u))) t)
      (none, t)
      (λ _.
        try_call_ind env (Finished env id (some msgs)) (set_run_status id run_start)
          (send_messages env msgs (λ u. (some id, u))) t ((tt, o), λ j e. cc)
          (λ ok.
            let sent =
              send_messages-Outcome env id msgs (set_run_status id run_start ∷ t) (a msgs refl)
                (tt, o) (inl (refl, ok)) in
            (sent.0, λ j e. let r = sent.1 j e in (r.0, msgs, refl, r.1))))
      (λ _. (o, λ j e. cc))

pub verify_tables-Finished :
    (env : RunEnv) (id : ℤ) (built : Option (List RunMessage)) (t : RunTrace)
    → ((msgs : List RunMessage) → built ≡ some msgs → All (OfRun id) msgs)
    → IsOrdered env t
    → Finished env id built (verify_tables env (start_messages env id built) t)
unfolding verify_tables
verify_tables-Finished env id built t a o =
    if_ind (λ f. Finished env id built (f t)) env.is_amazon_keyspaces
      (try_call env verify_tables_ready (start_messages env id built)) (start_messages env id built)
      (λ _.
        try_call_ind env (Finished env id built) verify_tables_ready (start_messages env id built) t
          ((tt, o), λ j e. cc)
          (λ _. start_messages-Finished env id built (verify_tables_ready ∷ t) a (tt, o)))
      (λ _. start_messages-Finished env id built t a o)
