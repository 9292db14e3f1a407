-- ===== src/Broker/Claimed.antt =====
-- Which claimed messages `ReturnDead` and `Delete` of pkg/capimq/message_broker.go take out of the
-- map of claimed messages, and when `QBulk` accepts messages.
use capillaries.Prelude.{
  ◌+◌, ◌≤◌, ◌≡◌, refl, Bool, false, ◌||◌, Option, none, some, List, [], ◌∷◌, ◌++◌, map, length,
  length-append, length-map, filter, count_if, if◌then◌else◌, Bool-cases, inl, inr, ◌⊎◌, arith,
}
use capillaries.Prelude.Int.{ℤ, pos, int_lt, ◌≤ℤ◌, ◌<ℤ◌, wrap64, ◌-ℤ◌}
use capillaries.Prelude.Text.{Text, text_eq}
use capillaries.Prelude.Sort.{length-sort_func}
use capillaries.Prelude.Assoc.{
  Assoc, lookup, delete, values, count_key, lookup-delete, lookup-eq_none,
}
use capillaries.Broker.Message.{Message, Broker, wip_heap, deliver_earlier_than, sort_q}
use capillaries.Broker.Ops.{
  return_dead, return_all, delete_messages, is_dead, q_bulk, enqueued, max_messages_exceeded,
  describe_dead,
}
use capillaries.Broker.Views.{in_groups, count, purge, delete_claimed, delete_ids, ids_in_groups}
use capillaries.Broker.Order.{InOrder, return_all-InOrder, sort_q-InOrder}
use capillaries.Broker.Accounting.{IsKeyed, IsConsistent}

-- The keys of the entries whose message passes a test.
abbrev selected : (Message → Bool) → Assoc Message → List Text
selected p [] = []
selected p ((k, m) ∷ wip) = let rest = selected p wip in if p m then k ∷ rest else rest

abbrev is_in : Text → List Text → Bool
is_in k [] = false
is_in k (j ∷ ids) = text_eq j k || is_in k ids

lookup-delete_ids :
    (k : Text) (ids : List Text) (wip : Assoc Message)
    → lookup k (delete_ids ids wip) ≡ (if is_in k ids then none else lookup k wip)
unfolding delete_ids
lookup-delete_ids k [] wip = refl
lookup-delete_ids k (j ∷ ids) wip =
    ground (arith, lookup-delete_ids k ids (delete j wip), lookup-delete j k wip)

-- The answer of a map after the entries that pass a test have gone.
abbrev pub unless : (Message → Bool) → Option Message → Option Message
unless p none = none
unless p (some m) = if p m then none else some m

abbrev passes : (Message → Bool) → Option Message → Bool
passes p none = false
passes p (some m) = p m

is_in-selected :
    (k : Text) (p : Message → Bool) (wip : Assoc Message)
    → count_key k wip ≤ 1
    → is_in k (selected p wip) ≡ passes p (lookup k wip)
unfolding lookup
is_in-selected k p [] u = refl
is_in-selected k p ((j, m) ∷ wip) u = ground (arith, is_in-selected k p wip, lookup-eq_none k wip)

lookup-selected :
    (k : Text) (p : Message → Bool) (wip : Assoc Message)
    → count_key k wip ≤ 1
    → lookup k (delete_ids (selected p wip) wip) ≡ unless p (lookup k wip)
lookup-selected k p wip u =
    ground (arith, lookup-delete_ids k (selected p wip) wip, is_in-selected k p wip u)

ids_in_groups-eq :
    (prefix : Text) (wip : Assoc Message)
    → ids_in_groups prefix wip ≡ selected (in_groups prefix) wip
unfolding ids_in_groups
ids_in_groups-eq prefix [] = refl
ids_in_groups-eq prefix ((k, m) ∷ wip) = ground (arith, ids_in_groups-eq prefix wip)

length-selected :
    (p : Message → Bool) (wip : Assoc Message) → length (selected p wip) ≡ count_if p (values wip)
length-selected p [] = refl
length-selected p ((k, m) ∷ wip) = ground (arith, length-selected p wip)

delete_messages-eq :
    (msgs : List Message) (wip : Assoc Message)
    → delete_messages msgs wip ≡ delete_ids (map (λ m. m.id) msgs) wip
unfolding delete_messages delete_ids
delete_messages-eq [] wip = refl
delete_messages-eq (m ∷ ms) wip = delete_messages-eq ms (delete m.id wip)

ids-eq_selected :
    (p : Message → Bool) (wip : Assoc Message)
    → IsKeyed wip
    → map (λ m. m.id) (filter p (values wip)) ≡ selected p wip
ids-eq_selected p [] h = refl
ids-eq_selected p ((k, m) ∷ wip) h = ground (arith, ids-eq_selected p wip h.1, h.0)

unique_key : (k : Text) (b : Broker) → IsConsistent b → count_key k b.wip ≤ 1
unique_key k b c = omega (arith, c.unique k)

-- A purge of the claimed messages takes out exactly the messages of the groups, reports as many as
-- `Count` gives for them, and leaves the queue alone.
pub purge-claimed_exact :
    (prefix : Text) (b : Broker) (k : Text)
    → IsConsistent b
    → let (after, n) = purge wip_heap prefix b in
      (lookup k after.wip ≡ unless (in_groups prefix) (lookup k b.wip))
      × (n ≡ count wip_heap prefix b)
      × (after.q ≡ b.q)
unfolding purge delete_claimed count
purge-claimed_exact prefix b k c = rw (ids_in_groups-eq prefix b.wip) (
  lookup-selected k (in_groups prefix) b.wip (unique_key k b c),
  length-selected (in_groups prefix) b.wip,
  refl,
)

length-sort_q : (q : List Message) → length (sort_q q) ≡ length q
unfolding sort_q
length-sort_q q = length-sort_func deliver_earlier_than q

length-return_all : (q msgs : List Message) → length (return_all q msgs) ≡ length q + length msgs
length-return_all q [] = omega arith
length-return_all q (m ∷ ms) = omega (arith, length-sort_q (q ++ m ∷ ms), length-append q (m ∷ ms))

-- `ReturnDead` takes out of the claimed messages exactly those whose last heartbeat is before the
-- allowed time, puts them in the queue, which stays in order, and reports one line for each.
pub return_dead-exact :
    (now timeout : ℤ) (b : Broker) (k : Text)
    → IsConsistent b
    → InOrder b.q
    → let dead = is_dead (wrap64 (now -ℤ timeout)) in
      let (after, report) = return_dead now timeout b in
      (lookup k after.wip ≡ unless dead (lookup k b.wip))
      × InOrder after.q
      × (length after.q ≡ length b.q + length report)
unfolding return_dead
return_dead-exact now timeout b k c s =
    let dead = is_dead (wrap64 (now -ℤ timeout)) in
    let msgs = filter dead (values b.wip) in
    (
      rw (delete_messages-eq msgs b.wip, ids-eq_selected dead b.wip c.keyed)
          (lookup-selected k dead b.wip (unique_key k b c)),
      return_all-InOrder b.q msgs s,
      omega (
        arith,
        length-return_all b.q msgs,
        length-map (describe_dead (wrap64 (now -ℤ timeout))) msgs,
      ),
    )

-- `QBulk` either refuses, exactly when the maximum would be passed, and changes nothing; or it
-- accepts every message: they stand in the queue, in order and within the maximum, and no claimed
-- message changes.
pub q_bulk-all_or_nothing :
    (now : ℤ) (msgs : List Message) (b : Broker)
    → InOrder b.q
    → let (after, error) = q_bulk now msgs b in
      ((error ≡ some (max_messages_exceeded b.max_messages (length b.q) (length msgs)))
        × (b.max_messages <ℤ pos (length b.q + length msgs))
        × (after ≡ b))
      ⊎ ((error ≡ none)
          × (pos (length after.q) ≤ℤ b.max_messages)
          × (length after.q ≡ length b.q + length msgs)
          × InOrder after.q
          × (after.wip ≡ b.wip))
unfolding q_bulk
q_bulk-all_or_nothing now msgs b s =
    elim (Bool-cases (int_lt b.max_messages (pos (length msgs + length b.q)))) [
      | inl e ↦ inl (rw e (refl, ground arith, refl))
      | inr e ↦
          let len : length (sort_q (b.q ++ map (enqueued now) msgs)) ≡ length b.q + length msgs =
            omega (
              arith,
              length-sort_q (b.q ++ map (enqueued now) msgs),
              length-append b.q (map (enqueued now) msgs),
              length-map (enqueued now) msgs,
            ) in
          inr (
            rw e (
              refl,
              ground (arith, len),
              len,
              sort_q-InOrder (b.q ++ map (enqueued now) msgs),
              refl,
            ))
    ]
