-- ===== src/Mq/Consumer.antt =====
-- The workers of pkg/mq/capimq_async_consumer.go with the loop of pkg/exe/daemon/capidaemon.go: a
-- listener that claims, a channel of one message, the loop that starts processors, and a channel of
-- tokens to the acknowledger. Messages are their ids. Each access to shared state is a step, with two
-- exceptions: a claim and the increment of the count that the listener makes after it are one step,
-- and so are the send of the last token and the release of the slot after it.
use capillaries.Prelude.{ℕ, ◌+◌, ◌<◌, ◌≡◌, false, List, [], ◌∷◌, ◌++◌, Option, none, some, length}
use capillaries.Prelude.Int.{ℤ, pos, int_eq, ◌+ℤ◌, ◌-ℤ◌}
use capillaries.Prelude.Text.{Text}

pub data Command : Type 0 where
  cmd_ack cmd_retry cmd_heartbeat : Command

pub record Token : Type 0 where
  pub msg_id : Text
  pub cmd : Command

-- Before the test of the processors, after it, with a claimed message in front of the channel, and
-- after the loop.
pub data Stage : Type 0 where
  polling checked : Stage
  sending : Text → Stage
  stopped : Stage

-- `in_hand` is what the loop has received and has no slot of the semaphore for; `running` are the
-- processors at work, `finishing` those that have left the count and still hold a slot.
pub record Daemon : Type 0 where
  pub active : ℤ
  pub stage : Stage
  pub channel : Option Text
  pub in_hand : Option Text
  pub running : List Text
  pub finishing : List Text
  pub tokens : List Token

abbrev pub started : Daemon
started = record {
  active = pos 0;
  stage = polling;
  channel = none;
  in_hand = none;
  running = [];
  finishing = [];
  tokens = [];
}

-- The thread pool has `slots` slots, which is also maxProcessors and the capacity of the channel of
-- tokens.
pub data Step (slots : ℕ) : Daemon → Daemon → Type 0 where
  finds_slot :
      (d : Daemon)
      → d.stage ≡ polling
      → int_eq d.active (pos slots) ≡ false
      → Step slots d (record d { stage = checked })
  finds_nothing : (d : Daemon) → d.stage ≡ checked → Step slots d (record d { stage = polling })
  claims :
      (d : Daemon) (id : Text)
      → d.stage ≡ checked
      → Step slots d (record d { stage = sending id; active = d.active +ℤ pos 1 })
  sends :
      (d : Daemon) (id : Text)
      → d.stage ≡ sending id
      → d.channel ≡ none
      → Step slots d (record d { stage = polling; channel = some id })
  stops : (d : Daemon) → d.stage ≡ polling → Step slots d (record d { stage = stopped })
  receives :
      (d : Daemon) (id : Text)
      → d.channel ≡ some id
      → d.in_hand ≡ none
      → Step slots d (record d { channel = none; in_hand = some id })
  starts :
      (d : Daemon) (id : Text)
      → d.in_hand ≡ some id
      → length d.running + length d.finishing < slots
      → Step slots d (record d { in_hand = none; running = id ∷ d.running })
  beats :
      (d : Daemon) (before after : List Text) (id : Text)
      → d.running ≡ before ++ id ∷ after
      → length d.tokens < slots
      → Step slots d
          (record d { tokens = d.tokens ++ record { msg_id = id; cmd = cmd_heartbeat } ∷ [] })
  finishes :
      (d : Daemon) (before after : List Text) (id : Text)
      → d.running ≡ before ++ id ∷ after
      → Step slots d (record d {
        active = d.active -ℤ pos 1;
        running = before ++ after;
        finishing = id ∷ d.finishing;
      })
  hands_over :
      (d : Daemon) (before after : List Text) (id : Text) (cmd : Command)
      → d.finishing ≡ before ++ id ∷ after
      → length d.tokens < slots
      → Step slots d (record d {
        finishing = before ++ after;
        tokens = d.tokens ++ record { msg_id = id; cmd = cmd } ∷ [];
      })
  acknowledges :
      (d : Daemon) (t : Token) (rest : List Token)
      → d.tokens ≡ t ∷ rest
      → Step slots d (record d { tokens = rest })

pub data Reach (slots : ℕ) : Daemon → Type 0 where
  at_rest : Reach slots started
  moved : {d e : Daemon} → Reach slots d → Step slots d e → Reach slots e

abbrev pub in_stage : Stage → ℕ
in_stage (sending id) = 1
in_stage _ = 0

abbrev pub in_place : Option Text → ℕ
in_place none = 0
in_place (some id) = 1

-- The messages that were claimed and are not processed.
abbrev pub unprocessed : Daemon → ℕ
unprocessed d = in_stage d.stage + in_place d.channel + in_place d.in_hand + length d.running
