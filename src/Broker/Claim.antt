-- ===== src/Broker/Claim.antt =====
-- What `Claim` and `Return` of pkg/capimq/message_broker.go promise to the workers.
use capillaries.Prelude.{
  ◌≡◌, ◌≢◌, refl, Bool, true, false, not, ◌&&◌, none, some, List, [], ◌∷◌, ◌++◌, map, length,
  get_elem?, get_elem?-append_last, count_if, count_if-append, filter, All, All-filter_of, ◌==◌,
  Bool-cases, inl, inr, arith,
}
use capillaries.Prelude.Int.{ℤ, int_lt, wrap64, ◌+ℤ◌}
use capillaries.Prelude.Text.{Text, text_eq, text_eq_refl}
use capillaries.Prelude.Sort.{All-sort_func, count_if-sort_func}
use capillaries.Prelude.Assoc.{lookup, lookup-delete}
use capillaries.Broker.Message.{Message, Broker, deliver_earlier_than, sort_q}
use capillaries.Broker.Ops.{claim, claim_head, return, return_found, requeue, postpone}
use capillaries.Broker.Order.{InOrder, claim_head-none}

-- From a queue in order, a claim that returns nothing changes nothing, and every queued message
-- is postponed to a later time.
pub claim-none :
    (now : ℤ) (comment : Text) (b : Broker)
    → InOrder b.q
    → (claim now comment b).1 ≡ none
    → ((claim now comment b).0 ≡ b) × All (λ m. int_lt now m.deliver_after ≡ true) b.q
unfolding claim
claim-none now comment b s h = claim_head-none now comment b b.q s h

abbrev AtTime : Text → ℤ → Message → Type 0
AtTime group at y = text_eq y.group group ≡ true → y.deliver_after ≡ at

postpone-AtTime : (group : Text) (at : ℤ) (y : Message) → AtTime group at (postpone group at y)
postpone-AtTime group at y e = ground arith

All-postpone :
    (group : Text) (at : ℤ) (q : List Message) → All (AtTime group at) (map (postpone group at) q)
All-postpone group at [] = tt
All-postpone group at (y ∷ q) = (postpone-AtTime group at y, All-postpone group at q)

-- A test that looks only at messages of other groups.
abbrev pub elsewhere : Text → (Message → Bool) → Message → Bool
elsewhere group t y = not (text_eq y.group group) && t y

count_if-postpone :
    (group : Text) (at : ℤ) (t : Message → Bool) (q : List Message)
    → count_if (elsewhere group t) (map (postpone group at) q) ≡ count_if (elsewhere group t) q
count_if-postpone group at t [] = refl
count_if-postpone group at t (y ∷ q) = ground (arith, count_if-postpone group at t q)

-- The queue after a message with a group comes back: every queued message of that group is due at
-- the same new time, and for the messages of other groups nothing changes: as many pass any test.
requeue_group :
    (at : ℤ) (m : Message) (q : List Message) (t : Message → Bool)
    → m.group ≢ []
    → All (AtTime m.group at) (requeue at m q)
      × (count_if (elsewhere m.group t) (requeue at m q) ≡ count_if (elsewhere m.group t) q)
unfolding requeue sort_q
requeue_group at m q t ne = elim (Bool-cases (length m.group == 0)) [
  | inl e ↦ absurd (ground arith)
  | inr e ↦ rw e (
    All-sort_func deliver_earlier_than (AtTime m.group at) (map (postpone m.group at) (q ++ m ∷ []))
        (All-postpone m.group at (q ++ m ∷ [])),
    ground (
      arith,
      count_if-sort_func deliver_earlier_than (elsewhere m.group t)
          (map (postpone m.group at) (q ++ m ∷ [])),
      count_if-postpone m.group at t (q ++ m ∷ []),
      count_if-append (elsewhere m.group t) q (m ∷ []),
      text_eq_refl m.group,
    ),
  )
]

-- When a claimed message with a group is returned, the message leaves the claimed ones, and in the
-- queue every message of its group, itself included, is due at the time of the return plus the
-- delay; as many messages of other groups as before pass any test.
pub return-postpones_group :
    (now delay : ℤ) (id : Text) (b : Broker) (m : Message) (t : Message → Bool)
    → lookup id b.wip ≡ some m
    → m.group ≢ []
    → let after = (return now delay id b).0 in
      All
        (λ y. y.deliver_after ≡ wrap64 (now +ℤ delay))
        (filter (λ y. text_eq y.group m.group) after.q)
      × (count_if (elsewhere m.group t) after.q ≡ count_if (elsewhere m.group t) b.q)
      × (lookup id after.wip ≡ none)
unfolding return return_found
return-postpones_group now delay id b m t found ne =
    let back = requeue_group (wrap64 (now +ℤ delay)) (record m { claim_comment = [] }) b.q t ne in
    rw (found, return)
      (
        All-filter_of (λ y. text_eq y.group m.group) (λ y. y.deliver_after ≡ wrap64 (now +ℤ delay))
            _ back.0,
        back.1,
        ground (arith, lookup-delete id id b.wip, text_eq_refl id),
      )

requeue_bare :
    (at : ℤ) (m : Message) (q : List Message)
    → m.group ≡ []
    → requeue at m q ≡ q ++ record m { deliver_after = at } ∷ []
unfolding requeue
requeue_bare at m q e = rw e

-- A message without a group is put behind a head that is postponed, although it is due: claims
-- return nothing while the head is postponed.
pub return-starves :
    (now delay later : ℤ) (comment id : Text) (b : Broker) (m head : Message) (rest : List Message)
    → lookup id b.wip ≡ some m
    → m.group ≡ []
    → b.q ≡ head ∷ rest
    → int_lt later head.deliver_after ≡ true
    → int_lt later (wrap64 (now +ℤ delay)) ≡ false
    → let after = (return now delay id b).0 in
      (get_elem? after.q (length b.q)
        ≡ some (record m { claim_comment = []; deliver_after = wrap64 (now +ℤ delay) }))
      × ((claim later comment after).1 ≡ none)
unfolding return return_found claim claim_head
return-starves now delay later comment id b m head rest found bare q postponed due =
    let back : requeue (wrap64 (now +ℤ delay)) (record m { claim_comment = [] }) b.q
        ≡ b.q ++ record m { claim_comment = []; deliver_after = wrap64 (now +ℤ delay) } ∷ [] =
      requeue_bare (wrap64 (now +ℤ delay)) (record m { claim_comment = [] }) b.q bare in
    rw (found, return) (rw back (get_elem?-append_last b.q _), rw back (rw q (rw postponed)))
