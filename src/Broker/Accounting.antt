-- ===== src/Broker/Accounting.antt =====
-- No operation of pkg/capimq/message_broker.go loses or doubles a message: how often an id occurs
-- in the queue and among the claimed messages, before and after each operation.
use capillaries.Prelude.{
  ℕ, zero, suc, ◌+◌, ◌≤◌, ◌≡◌, refl, Bool, Option, none, some, List, [], ◌∷◌, ◌++◌, map, filter,
  count_if, count_if-append, All, if◌then◌else◌, ap, arith,
}
use capillaries.Prelude.Int.{ℤ, wrap64, ◌+ℤ◌, ◌-ℤ◌}
use capillaries.Prelude.Text.{Text, text_eq, text_eq_refl, eq_of_text_eq}
use capillaries.Prelude.Sort.{count_if-sort_func}
use capillaries.Prelude.Assoc.{
  Assoc, lookup, delete, values, count_key, count_key-delete, count_key-put, count_key-pos,
  All-lookup,
}
use capillaries.Broker.Message.{Message, Broker, sort_q, deliver_earlier_than}
use capillaries.Broker.Ops.{
  BrokerError, claim, claim_head, claimed, return_dead, return_all, delete_messages, is_dead,
  q_bulk, enqueued, ack, ack_found, heartbeat, heartbeat_found, set_heartbeat, return, return_found,
  requeue, postpone,
}

abbrev pub has_id : Text → Message → Bool
has_id k m = text_eq m.id k

-- How often an id occurs in the broker.
abbrev pub occurs : Text → Broker → ℕ
occurs k b = count_if (has_id k) b.q + count_key k b.wip

abbrev pub IsKeyed : Assoc Message → Type 0
IsKeyed wip = All (λ e. e.0 ≡ e.1.id) wip

-- Claimed messages are filed under their ids, and no id occurs twice.
pub record IsConsistent (b : Broker) : Type 0 where
  pub keyed : IsKeyed b.wip
  pub unique : (k : Text) → occurs k b ≤ 1

count_if-sort_q :
    (k : Text) (q : List Message) → count_if (has_id k) (sort_q q) ≡ count_if (has_id k) q
unfolding sort_q
count_if-sort_q k q = count_if-sort_func deliver_earlier_than (has_id k) q

count_if-return_all :
    (k : Text) (q msgs : List Message)
    → count_if (has_id k) (return_all q msgs) ≡ count_if (has_id k) q + count_if (has_id k) msgs
count_if-return_all k q [] = omega arith
count_if-return_all k q (m ∷ ms) =
    omega (arith, count_if-sort_q k (q ++ m ∷ ms), count_if-append (has_id k) q (m ∷ ms))

count_key-delete_messages :
    (k : Text) (msgs : List Message) (wip : Assoc Message)
    → count_key k (delete_messages msgs wip)
      ≡ elim (count_if (has_id k) msgs) [ zero ↦ count_key k wip | suc n ↦ 0 ]
unfolding delete_messages
count_key-delete_messages k [] wip = refl
count_key-delete_messages k (m ∷ ms) wip =
    ground (arith, count_key-delete_messages k ms (delete m.id wip), count_key-delete m.id k wip)

-- The claimed messages of an id are no more than its entries.
count_if-values :
    (k : Text) (p : Message → Bool) (wip : Assoc Message)
    → IsKeyed wip
    → count_if (has_id k) (filter p (values wip)) ≤ count_key k wip
count_if-values k p [] h = omega arith
count_if-values k p ((j, m) ∷ wip) h = ground (arith, count_if-values k p wip h.1, h.0)

-- Messages that workers stopped reporting on go back to the queue, and none is lost or doubled.
pub occurs-return_dead :
    (now timeout : ℤ) (b : Broker) (k : Text)
    → IsConsistent b
    → occurs k (return_dead now timeout b).0 ≡ occurs k b
unfolding return_dead
occurs-return_dead now timeout b k c = ground (
  arith,
  count_if-return_all k b.q (filter (is_dead (wrap64 (now -ℤ timeout))) (values b.wip)),
  count_key-delete_messages k (filter (is_dead (wrap64 (now -ℤ timeout))) (values b.wip)) b.wip,
  count_if-values k (is_dead (wrap64 (now -ℤ timeout))) b.wip c.keyed,
  c.unique k,
)

count_if-enqueued :
    (k : Text) (now : ℤ) (msgs : List Message)
    → count_if (has_id k) (map (enqueued now) msgs) ≡ count_if (has_id k) msgs
count_if-enqueued k now [] = refl
count_if-enqueued k now (m ∷ ms) = ground (arith, count_if-enqueued k now ms)

abbrev pub accepted : Option BrokerError → ℕ → ℕ
accepted none n = n
accepted (some e) n = 0

-- A bulk that is accepted adds its messages; one that is refused adds none.
pub occurs-q_bulk :
    (now : ℤ) (msgs : List Message) (b : Broker) (k : Text)
    → occurs k (q_bulk now msgs b).0
      ≡ occurs k b + accepted (q_bulk now msgs b).1 (count_if (has_id k) msgs)
unfolding q_bulk
occurs-q_bulk now msgs b k = ground (
  arith,
  count_if-sort_q k (b.q ++ map (enqueued now) msgs),
  count_if-enqueued k now msgs,
  count_if-append (has_id k) b.q (map (enqueued now) msgs),
)

-- A claim moves a message, from the queue to the claimed ones.
occurs-claim_head :
    (now : ℤ) (comment : Text) (b : Broker) (q : List Message) (k : Text)
    → count_if (has_id k) q + count_key k b.wip ≤ 1
    → b.q ≡ q
    → occurs k (claim_head now comment b q).0 ≡ occurs k b
unfolding claim_head
occurs-claim_head now comment b [] k u e = refl
occurs-claim_head now comment b (m ∷ rest) k u e =
    ground (arith, count_key-put m.id k (claimed now comment m) b.wip, ap (count_if (has_id k)) e)

pub occurs-claim :
    (now : ℤ) (comment : Text) (b : Broker) (k : Text)
    → IsConsistent b
    → occurs k (claim now comment b).0 ≡ occurs k b
unfolding claim
occurs-claim now comment b k c = occurs-claim_head now comment b b.q k (c.unique k) refl

-- An acknowledgement takes the message of its id out, and no other; a refused one takes none.
pub occurs-ack :
    (id : Text) (b : Broker) (k : Text)
    → IsConsistent b
    → occurs k b ≡ occurs k (ack id b).0 + accepted (ack id b).1 (if text_eq id k then 1 else 0)
unfolding ack ack_found
occurs-ack id b k c = go (lookup id b.wip) refl
  where
    go :
        (o : Option Message)
        → lookup id b.wip ≡ o
        → occurs k b
          ≡ occurs k (ack_found id b o).0
            + accepted (ack_found id b o).1 (if text_eq id k then 1 else 0)
    go none e = omega arith
    go (some m) e = ground (
      arith,
      count_key-delete id k b.wip,
      count_key-pos id b.wip m e,
      c.unique k,
      eq_of_text_eq id k,
    )

count_key-set_heartbeat :
    (id : Text) (now : ℤ) (wip : Assoc Message) (k : Text)
    → count_key k (set_heartbeat id now wip) ≡ count_key k wip
unfolding set_heartbeat
count_key-set_heartbeat id now [] k = refl
count_key-set_heartbeat id now ((j, m) ∷ wip) k =
    ground (arith, count_key-set_heartbeat id now wip k)

-- A heartbeat moves no message.
pub occurs-heartbeat :
    (id : Text) (now : ℤ) (b : Broker) (k : Text) → occurs k (heartbeat id now b).0 ≡ occurs k b
unfolding heartbeat heartbeat_found
occurs-heartbeat id now b k = go (lookup id b.wip)
  where
    go : (o : Option Message) → occurs k (heartbeat_found id now b o).0 ≡ occurs k b
    go none = refl
    go (some m) = omega (arith, count_key-set_heartbeat id now b.wip k)

count_if-postpone :
    (k group : Text) (at : ℤ) (q : List Message)
    → count_if (has_id k) (map (postpone group at) q) ≡ count_if (has_id k) q
count_if-postpone k group at [] = refl
count_if-postpone k group at (m ∷ q) = ground (arith, count_if-postpone k group at q)

count_if-requeue :
    (k : Text) (at : ℤ) (m : Message) (q : List Message)
    → count_if (has_id k) (requeue at m q) ≡ count_if (has_id k) q + count_if (has_id k) (m ∷ [])
unfolding requeue
count_if-requeue k at m q = ground (
  arith,
  count_if-append (has_id k) q (record m { deliver_after = at } ∷ []),
  count_if-sort_q k (map (postpone m.group at) (q ++ m ∷ [])),
  count_if-postpone k m.group at (q ++ m ∷ []),
  count_if-append (has_id k) q (m ∷ []),
)

-- A return moves a message back to the queue, or is refused; none is lost or doubled.
pub occurs-return :
    (now delay : ℤ) (id : Text) (b : Broker) (k : Text)
    → IsConsistent b
    → occurs k (return now delay id b).0 ≡ occurs k b
unfolding return return_found
occurs-return now delay id b k c = go (lookup id b.wip) refl
  where
    go :
        (o : Option Message)
        → lookup id b.wip ≡ o
        → occurs k (return_found now delay id b o).0 ≡ occurs k b
    go none e = refl
    go (some m) e =
        let filed : id ≡ m.id = All-lookup (λ k m. k ≡ m.id) id b.wip m c.keyed e in
        ground (
          arith,
          count_if-requeue k (wrap64 (now +ℤ delay)) (record m { claim_comment = [] }) b.q,
          count_key-delete id k b.wip,
          count_key-pos id b.wip m e,
          c.unique k,
          eq_of_text_eq id k,
          filed,
          text_eq_refl k,
        )
