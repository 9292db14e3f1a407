-- ===== src/Api/RunMessages.antt =====
-- The messages of a node in a run that StartRun of pkg/api/run.go starts.
use capillaries.Prelude.{
  ◌≡◌, refl, ap, ◌∙◌, ℕ, zero, suc, ◌+◌, ◌≤◌, ◌<◌, List, [], ◌∷◌, some, get_elem?, length, arith,
  get_elem?-some,
}
use capillaries.Prelude.Int.{ℤ, pos, wrap16, wrap16_of_fits}
use capillaries.Prelude.Text.{Text}
use capillaries.Api.StartRun.{RunMessage, messages_loop, node_messages}

-- The message with an index, and with numbers already converted.
abbrev pub message_of : ℤ → Text → ℤ → ℤ → ℤ × ℤ → RunMessage
message_of id name idx total interval = record {
  run_id = id;
  target_node_name = name;
  first_token = interval.0;
  last_token = interval.1;
  batch_idx = idx;
  batches_total = total;
}

get_elem?-messages_loop :
    (id : ℤ) (name : Text) (total idx : ℕ) (intervals : List (ℤ × ℤ)) (i : ℕ) (v : ℤ × ℤ)
    → get_elem? intervals i ≡ some v
    → get_elem? (messages_loop id name total idx intervals) i
      ≡ some (message_of id name (wrap16 (pos (idx + i))) (wrap16 (pos total)) v)
unfolding messages_loop
get_elem?-messages_loop id name total idx [] i v h = cc
get_elem?-messages_loop id name total idx (w ∷ intervals) zero v h = ground arith
get_elem?-messages_loop id name total idx (w ∷ intervals) (suc i) v h =
    get_elem?-messages_loop id name total (suc idx) intervals i v h
    ∙ ap (λ n. some (message_of id name (wrap16 (pos n)) (wrap16 (pos total)) v)) (omega arith)

length-messages_loop :
    (id : ℤ) (name : Text) (total idx : ℕ) (intervals : List (ℤ × ℤ))
    → length (messages_loop id name total idx intervals) ≡ length intervals
unfolding messages_loop
length-messages_loop id name total idx [] = refl
length-messages_loop id name total idx (v ∷ intervals) =
    ap suc (length-messages_loop id name total (suc idx) intervals)

fits : (i : ℕ) {n : ℕ} → i < n → n ≤ 32767 → wrap16 (pos (0 + i)) ≡ pos i
unfolding wrap16
fits i h b = ground arith

same_index : (i : ℕ) → wrap16 (pos (0 + (i + 65536))) ≡ wrap16 (pos (0 + i))
unfolding wrap16
same_index i = ground arith

-- A node with at most 32767 batches gets one message for each of its intervals, in their order: the
-- message with index i has the i-th interval, the batch index i and the number of the intervals.
pub get_elem?-node_messages :
    (id : ℤ) (name : Text) (intervals : List (ℤ × ℤ)) (i : ℕ) (v : ℤ × ℤ)
    → length intervals ≤ 32767
    → get_elem? intervals i ≡ some v
    → (length (node_messages id name intervals) ≡ length intervals)
      × (get_elem? (node_messages id name intervals) i
          ≡ some (message_of id name (pos i) (pos (length intervals)) v))
unfolding node_messages
get_elem?-node_messages id name intervals i v n h =
    let inside : i < length intervals = get_elem?-some intervals i v h in
    (
      length-messages_loop id name (length intervals) 0 intervals,
      get_elem?-messages_loop id name (length intervals) 0 intervals i v h
          ∙ ap (λ b. some (message_of id name b (wrap16 (pos (length intervals))) v))
              (fits i inside n)
          ∙ ap (λ b. some (message_of id name (pos i) b v))
              (wrap16_of_fits (pos (length intervals)) (omega arith) (omega arith)),
    )

-- In a node with more than 65536 batches, whose number is accepted up to a million, the messages of
-- the batches i and i + 65536 have the same batch index.
pub node_messages-collide :
    (id : ℤ) (name : Text) (intervals : List (ℤ × ℤ)) (i : ℕ) (v w : ℤ × ℤ)
    → get_elem? intervals i ≡ some v
    → get_elem? intervals (i + 65536) ≡ some w
    → (b : ℤ) × (t : ℤ) × (get_elem? (node_messages id name intervals) i
        ≡ some (message_of id name b t v))
      × (get_elem? (node_messages id name intervals) (i + 65536) ≡ some (message_of id name b t w))
unfolding node_messages
node_messages-collide id name intervals i v w h g = (
  wrap16 (pos (0 + i)),
  wrap16 (pos (length intervals)),
  get_elem?-messages_loop id name (length intervals) 0 intervals i v h,
  get_elem?-messages_loop id name (length intervals) 0 intervals (i + 65536) w g
      ∙ ap (λ b. some (message_of id name b (wrap16 (pos (length intervals))) w)) (same_index i),
)
