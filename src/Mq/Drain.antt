-- ===== src/Mq/Drain.antt =====
-- The workers of pkg/mq/capimq_async_consumer.go and of the daemon never block each other for good, while the loop
-- of the daemon runs.
use capillaries.Prelude.{
  ℕ, zero, suc, ◌+◌, ◌*◌, ◌<◌, ◌≡◌, refl, ap, List, [], ◌∷◌, none, length, length-append, ◌⊎◌, inl,
  inr, arith, Option-cases,
}
use capillaries.Prelude.Text.{Text}
use capillaries.Mq.Consumer.{
  cmd_ack, Stage, polling, checked, sending, stopped, Daemon, Step, sends, receives, starts,
  finishes, hands_over, acknowledges, in_stage, in_place, unprocessed,
}

pub data Steps (slots : ℕ) (d : Daemon) : Daemon → Type 0 where
  stay : Steps slots d d
  onward : {e f : Daemon} → Steps slots d e → Step slots e f → Steps slots d f

-- How many moves the messages and the tokens in the daemon have in front of them.
abbrev moves_left : Daemon → ℕ
moves_left d =
    6 * in_stage d.stage
    + 5 * in_place d.channel
    + 4 * in_place d.in_hand
    + 3 * length d.running
    + 2 * length d.finishing
    + length d.tokens

List-cases : {A : Type 0} (l : List A) → (l ≡ []) ⊎ ((x : A) × (xs : List A) × (l ≡ x ∷ xs))
List-cases [] = inl refl
List-cases (x ∷ xs) = inr (x, xs, refl)

Stage-cases : (s : Stage) → (in_stage s ≡ 0) ⊎ ((id : Text) × (s ≡ sending id))
Stage-cases polling = inl refl
Stage-cases checked = inl refl
Stage-cases stopped = inl refl
Stage-cases (sending id) = inr (id, refl)

-- A step that uses one of the moves.
abbrev Progress : ℕ → Daemon → Type 0
Progress slots d = (e : Daemon) × Step slots d e × (suc (moves_left e) ≡ moves_left d)

module _ (slots : ℕ) (positive : 0 < slots) (d : Daemon) where
  listener_goes_on :
      d.channel ≡ none
      → (moves_left d ≡ 6 * in_stage d.stage)
      → (moves_left d ≡ 0) ⊎ Progress slots d
  listener_goes_on c z = elim (Stage-cases d.stage) [
    | inl s ↦ inl (ground (arith, s, z))
    | inr (id, s) ↦ inr (_, sends d id s c, ground (arith, s, c, z))
  ]

  channel_goes_on :
      d.in_hand ≡ none
      → (moves_left d ≡ 6 * in_stage d.stage + 5 * in_place d.channel)
      → (moves_left d ≡ 0) ⊎ Progress slots d
  channel_goes_on i z = elim (Option-cases d.channel) [
    | inl c ↦ listener_goes_on c (ground (arith, c, z))
    | inr (id, c) ↦ inr (_, receives d id c i, ground (arith, c, i, z))
  ]

  loop_goes_on :
      d.running ≡ [] → d.finishing ≡ [] → d.tokens ≡ [] → (moves_left d ≡ 0) ⊎ Progress slots d
  loop_goes_on r f t = elim (Option-cases d.in_hand) [
    | inl i ↦ channel_goes_on i (ground (arith, i, ap length r, ap length f, ap length t))
    | inr (id, i) ↦
        inr (_, starts d id i (ground (arith, ap length r, ap length f)), ground (arith, i))
  ]

  workers_go_on : (moves_left d ≡ 0) ⊎ Progress slots d
  workers_go_on = elim (List-cases d.tokens) [
    | inr (t, ts, q) ↦ inr (_, acknowledges d t ts q, ground (arith, ap length q))
    | inl q ↦ elim (List-cases d.finishing) [
      | inr (id, ids, p) ↦ inr (
        _,
        hands_over d [] ids id cmd_ack p (ground (arith, ap length q)),
        ground (
          arith,
          ap length p,
          length-append d.tokens (record { msg_id = id; cmd = cmd_ack } ∷ []),
        ),
      )
      | inl p ↦ elim (List-cases d.running) [
        | inr (id, ids, r) ↦ inr (_, finishes d [] ids id r, ground (arith, ap length r))
        | inl r ↦ loop_goes_on r p q
      ]
    ]
  ]

drained :
    (slots : ℕ)
    → 0 < slots
    → (n : ℕ) (c d : Daemon) → moves_left d ≡ n
    → Steps slots c d
    → (e : Daemon) × Steps slots c e × (moves_left e ≡ 0)
drained slots p zero c d h s = (d, s, h)
drained slots p (suc n) c d h s = elim (workers_go_on slots p d) [
  | inl z ↦ absurd (omega (arith, h, z))
  | inr (e, m, l) ↦ drained slots p n c e (omega (arith, h, l)) (onward s m)
]

-- From every state of a daemon with a slot, steps of its workers lead to a state in which every
-- message that was claimed is processed, every slot of the semaphore is free and every token is sent.
pub daemon-drains :
    (slots : ℕ) (d : Daemon)
    → 0 < slots
    → (e : Daemon) × Steps slots d e
      × (unprocessed e ≡ 0)
      × (length e.finishing ≡ 0)
      × (length e.tokens ≡ 0)
daemon-drains slots d p =
    let whole = drained slots p (moves_left d) d d refl stay in
    (whole.0, whole.1, omega (arith, whole.2), omega (arith, whole.2), omega (arith, whole.2))
