-- ===== src/Examples/Daemons.antt =====
-- Runs of the workers of a daemon, pkg/mq and pkg/exe/daemon.
use capillaries.Prelude.{◌+◌, ◌≤◌, ◌≡◌, refl, [], ◌∷◌, none, some, length, arith}
use capillaries.Prelude.Int.{pos, ◌+ℤ◌, ◌-ℤ◌}
use capillaries.Prelude.Text.{bytes}
use capillaries.Mq.Consumer.{
  cmd_heartbeat, polling, checked, sending, Daemon, started, finds_slot, claims, sends, receives,
  starts, beats, finishes, Reach, at_rest, moved, unprocessed,
}
use capillaries.Mq.Counting.{Reach-counted}
use capillaries.Mq.Drain.{Steps, daemon-drains}

abbrev first_beats : Daemon
first_beats = record {
  active = pos 1;
  stage = polling;
  channel = none;
  in_hand = none;
  running = bytes "a" ∷ [];
  finishing = [];
  tokens = record { msg_id = bytes "a"; cmd = cmd_heartbeat } ∷ [];
}

-- With one slot: a message is claimed, started, and its heartbeat fills the channel of tokens.
first_in_work : Reach 1 first_beats
unfolding ◌+ℤ◌
first_in_work =
    moved
      (moved
        (moved
          (moved
            (moved (moved at_rest (finds_slot started refl refl))
              (claims (record started { stage = checked }) (bytes "a") refl))
            (sends (record started { stage = sending (bytes "a"); active = pos 1 }) (bytes "a") refl
              refl))
          (receives (record started { channel = some (bytes "a"); active = pos 1 }) (bytes "a") refl
            refl))
        (starts (record started { in_hand = some (bytes "a"); active = pos 1 }) (bytes "a") refl
          (omega arith)))
      (beats (record started { running = bytes "a" ∷ []; active = pos 1 }) [] [] (bytes "a") refl
        (omega arith))

abbrev second_waits : Daemon
second_waits = record {
  active = pos 1;
  stage = polling;
  channel = some (bytes "b");
  in_hand = none;
  running = [];
  finishing = bytes "a" ∷ [];
  tokens = record { msg_id = bytes "a"; cmd = cmd_heartbeat } ∷ [];
}

-- A processor leaves the count before it has handed its token over and freed its slot, so the
-- listener claims a message for which there is no slot, and which sends no heartbeats.
second_claimed_early : Reach 1 second_waits
unfolding ◌+ℤ◌ ◌-ℤ◌
second_claimed_early =
    moved
      (moved
        (moved (moved first_in_work (finishes first_beats [] [] (bytes "a") refl)) (
          finds_slot
            (record first_beats { active = pos 0; running = []; finishing = bytes "a" ∷ [] }) refl
            refl))
        (claims
          (record first_beats {
            active = pos 0;
            running = [];
            finishing = bytes "a" ∷ [];
            stage = checked;
          })
          (bytes "b") refl))
      (sends
        (record first_beats {
          active = pos 1;
          running = [];
          finishing = bytes "a" ∷ [];
          stage = sending (bytes "b");
        })
        (bytes "b") refl refl)

Reach-counted_example :
    (second_waits.active ≡ pos (unprocessed second_waits))
    × (unprocessed second_waits ≤ 1)
    × (length second_waits.running + length second_waits.finishing ≤ 1)
Reach-counted_example = Reach-counted 1 second_waits second_claimed_early

daemon-drains_example :
    (e : Daemon) × Steps 1 second_waits e
    × (unprocessed e ≡ 0)
    × (length e.finishing ≡ 0)
    × (length e.tokens ≡ 0)
daemon-drains_example = daemon-drains 1 second_waits (omega arith)
