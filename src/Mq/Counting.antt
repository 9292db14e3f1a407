-- ===== src/Mq/Counting.antt =====
-- The count of active processors in pkg/mq/capimq_async_consumer.go, in every state of the daemon.
use capillaries.Prelude.{
  ℕ, suc, ◌+◌, ◌≤◌, ◌<◌, ◌≡◌, refl, ap, List, [], ◌∷◌, ◌++◌, length, length-append, arith,
}
use capillaries.Prelude.Int.{pos, ◌+ℤ◌, ◌-ℤ◌}
use capillaries.Prelude.Text.{Text}
use capillaries.Mq.Consumer.{
  cmd_heartbeat, Stage, checked, Daemon, Step, finds_slot, finds_nothing, claims, sends, stops,
  receives, starts, beats, finishes, hands_over, acknowledges, Reach, at_rest, moved, unprocessed,
}

abbrev Room : ℕ → Stage → ℕ → Type 0
Room slots checked n = n < slots
Room slots _ n = n ≤ slots

record IsCounted (slots : ℕ) (d : Daemon) : Type 0 where
  counted : d.active ≡ pos (unprocessed d)
  has_room : Room slots d.stage (unprocessed d)
  slots_held : length d.running + length d.finishing ≤ slots
  tokens_fit : length d.tokens ≤ slots

length_without :
    (before after : List Text) (id : Text)
    → length (before ++ id ∷ after) ≡ suc (length (before ++ after))
length_without [] after id = refl
length_without (x ∷ before) after id = ap suc (length_without before after id)

Step-IsCounted : {slots : ℕ} {d e : Daemon} → Step slots d e → IsCounted slots d → IsCounted slots e
unfolding ◌+ℤ◌ ◌-ℤ◌
Step-IsCounted (finds_slot d p q) k = record {
  counted = ground (arith);
  has_room = ground (arith);
  slots_held = ground (arith);
  tokens_fit = ground (arith);
}
Step-IsCounted (finds_nothing d p) k = record {
  counted = ground (arith);
  has_room = ground (arith);
  slots_held = ground (arith);
  tokens_fit = ground (arith);
}
Step-IsCounted (claims d id p) k = record {
  counted = ground (arith);
  has_room = ground (arith);
  slots_held = ground (arith);
  tokens_fit = ground (arith);
}
Step-IsCounted (sends d id p q) k = record {
  counted = ground (arith);
  has_room = ground (arith);
  slots_held = ground (arith);
  tokens_fit = ground (arith);
}
Step-IsCounted (stops d p) k = record {
  counted = ground (arith);
  has_room = ground (arith);
  slots_held = ground (arith);
  tokens_fit = ground (arith);
}
Step-IsCounted (receives d id p q) k = record {
  counted = ground (arith);
  has_room = ground (arith);
  slots_held = ground (arith);
  tokens_fit = ground (arith);
}
Step-IsCounted (starts d id p q) k = record {
  counted = ground (arith);
  has_room = ground (arith);
  slots_held = ground (arith);
  tokens_fit = ground (arith);
}
Step-IsCounted (beats d before after id p q) k = record {
  counted =
      ground (arith, length-append d.tokens (record { msg_id = id; cmd = cmd_heartbeat } ∷ []));
  has_room =
      ground (arith, length-append d.tokens (record { msg_id = id; cmd = cmd_heartbeat } ∷ []));
  slots_held =
      ground (arith, length-append d.tokens (record { msg_id = id; cmd = cmd_heartbeat } ∷ []));
  tokens_fit =
      ground (arith, length-append d.tokens (record { msg_id = id; cmd = cmd_heartbeat } ∷ []));
}
Step-IsCounted (finishes d before after id p) k = record {
  counted = ground (arith, ap length p, length_without before after id);
  has_room = ground (arith, ap length p, length_without before after id);
  slots_held = ground (arith, ap length p, length_without before after id);
  tokens_fit = ground (arith, ap length p, length_without before after id);
}
Step-IsCounted (hands_over d before after id cmd p q) k = record {
  counted = ground (
    arith,
    ap length p,
    length_without before after id,
    length-append d.tokens (record { msg_id = id; cmd = cmd } ∷ []),
  );
  has_room = ground (
    arith,
    ap length p,
    length_without before after id,
    length-append d.tokens (record { msg_id = id; cmd = cmd } ∷ []),
  );
  slots_held = ground (
    arith,
    ap length p,
    length_without before after id,
    length-append d.tokens (record { msg_id = id; cmd = cmd } ∷ []),
  );
  tokens_fit = ground (
    arith,
    ap length p,
    length_without before after id,
    length-append d.tokens (record { msg_id = id; cmd = cmd } ∷ []),
  );
}
Step-IsCounted (acknowledges d t rest p) k = record {
  counted = ground (arith, ap length p);
  has_room = ground (arith, ap length p);
  slots_held = ground (arith, ap length p);
  tokens_fit = ground (arith, ap length p);
}

Reach-IsCounted : {slots : ℕ} {d : Daemon} → Reach slots d → IsCounted slots d
Reach-IsCounted at_rest = record {
  counted = refl;
  has_room = omega arith;
  slots_held = omega arith;
  tokens_fit = omega arith;
}
Reach-IsCounted (moved r s) = Step-IsCounted s (Reach-IsCounted r)

-- In every state that the daemon reaches, the count of active processors is the number of messages
-- that it has claimed and not processed, these are at most as many as the thread pool has slots, and
-- the processors hold at most as many slots of the semaphore.
pub Reach-counted :
    (slots : ℕ) (d : Daemon)
    → Reach slots d
    → (d.active ≡ pos (unprocessed d))
      × (unprocessed d ≤ slots)
      × (length d.running + length d.finishing ≤ slots)
Reach-counted slots d r =
    let k = Reach-IsCounted r in (k.counted, ground (arith, k.has_room), k.slots_held)
