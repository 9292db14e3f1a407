-- ===== src/Examples/Queue.antt =====
-- Runs of the broker, pkg/capimq/message_broker.go.
use Prim.Native.String.{String}
use capillaries.Prelude.{ℕ, ◌+◌, ◌/◌, ◌≡◌, refl, arith, none, some, [], ◌∷◌, length, get_elem?}
use capillaries.Prelude.Int.{pos, wrap64, ◌+ℤ◌}
use capillaries.Prelude.Text.{bytes, text_eq}
use capillaries.Prelude.Assoc.{lookup}
use capillaries.Broker.Message.{Message, Broker, q_heap, deliver_earlier_than}
use capillaries.Broker.Ops.{claim, claimed, return}
use capillaries.Broker.Views.{purge}
use capillaries.Broker.Order.{InOrder}
use capillaries.Broker.Accounting.{occurs, IsConsistent}
use capillaries.Broker.Delivery.{run-InOrder}
use capillaries.Broker.Claim.{return-starves}
use capillaries.Broker.Purge.{purge_all-leaves_half}
use capillaries.Broker.Run.{
  step, run, claim_one, give_back, beat, run-IsConsistent, run-keeps_message,
}

abbrev message : String → String → ℕ → Message
message id group at = record {
  id = bytes id;
  group = bytes group;
  ts = pos 1;
  deliver_after = pos at;
  heartbeat = pos 2;
  claim_comment = [];
  payload = [];
}

abbrev first : Message
first = message "a" "g" 5

abbrev second : Message
second = message "b" "g" 9

abbrev bare : Message
bare = message "c" "" 5

abbrev queued : Broker
queued = record { q = first ∷ second ∷ []; wip = []; max_messages = pos 10 }

abbrev in_work : Broker
in_work = record { q = second ∷ []; wip = (bytes "a", first) ∷ []; max_messages = pos 10 }

abbrev bare_in_work : Broker
bare_in_work = record { q = second ∷ []; wip = (bytes "c", bare) ∷ []; max_messages = pos 10 }

queued-InOrder : InOrder queued.q
unfolding deliver_earlier_than
queued-InOrder = ((refl, tt), (tt, tt))

in_work-InOrder : InOrder in_work.q
in_work-InOrder = (tt, tt)

queued-IsConsistent : IsConsistent queued
unfolding text_eq
queued-IsConsistent = record { keyed = tt; unique = λ k. ground arith }

in_work-IsConsistent : IsConsistent in_work
unfolding text_eq
in_work-IsConsistent = record { keyed = (refl, tt); unique = λ k. ground arith }

claim_twice : (claim (pos 9) [] queued).1 ≡ some (claimed (pos 9) [] first)
unfolding claim
claim_twice = refl

run-keeps_message_example :
    occurs (bytes "a") (
      run
        (claim_one (pos 9) []
          ∷ beat (bytes "a") (pos 10)
          ∷ give_back (pos 11) (pos 3) (bytes "a")
          ∷ [])
        queued)
    ≡ 1
unfolding text_eq
run-keeps_message_example =
    run-keeps_message
      (claim_one (pos 9) []
        ∷ beat (bytes "a") (pos 10)
        ∷ give_back (pos 11) (pos 3) (bytes "a")
        ∷ [])
      queued (bytes "a") queued-IsConsistent (tt, (tt, (tt, tt))) (refl, (refl, (refl, tt))) refl

run-IsConsistent_example :
    IsConsistent (run (claim_one (pos 9) [] ∷ give_back (pos 11) (pos 3) (bytes "a") ∷ []) queued)
run-IsConsistent_example =
    run-IsConsistent (claim_one (pos 9) [] ∷ give_back (pos 11) (pos 3) (bytes "a") ∷ []) queued
      (tt, (tt, tt)) queued-IsConsistent

return-starves_example :
    let after = (return (pos 1) (pos 2) (bytes "c") bare_in_work).0 in
    (get_elem? after.q (length bare_in_work.q)
      ≡ some (record bare { claim_comment = []; deliver_after = wrap64 (pos 1 +ℤ pos 2) }))
    × ((claim (pos 4) [] after).1 ≡ none)
unfolding lookup text_eq wrap64 ◌+ℤ◌
return-starves_example =
    return-starves (pos 1) (pos 2) (pos 4) [] (bytes "c") bare_in_work bare second [] refl refl refl
      refl refl

purge_all-leaves_half_example :
    ((purge q_heap [] queued).1 ≡ (length queued.q + 1) / 2)
    × (length (purge q_heap [] queued).0.q ≡ length queued.q / 2)
purge_all-leaves_half_example = purge_all-leaves_half queued

run-InOrder_example :
    InOrder (run (claim_one (pos 9) [] ∷ give_back (pos 11) (pos 3) (bytes "a") ∷ []) queued).q
unfolding claim step lookup text_eq
run-InOrder_example =
    run-InOrder (claim_one (pos 9) [] ∷ give_back (pos 11) (pos 3) (bytes "a") ∷ []) queued
      (refl, (refl, tt)) queued-InOrder
