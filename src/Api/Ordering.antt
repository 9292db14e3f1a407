-- ===== src/Api/Ordering.antt =====
-- The order of the calls that pkg/api/message_handler.go makes for one message.
use capillaries.Prelude.{◌≡◌, true, false}
use capillaries.Api.World.{M, Acknowledge, Env, Trace}
use capillaries.Api.Calls.{processed, cleaned, is_ordered, Quiet}
use capillaries.Api.Checks.{BatchScenario, batch_was_abandoned}

-- The data of a batch that was abandoned have been deleted.
abbrev CleanedUp : BatchScenario → Trace → Type 0
CleanedUp batch_was_abandoned t = cleaned t ≡ true
CleanedUp _ t = Unit

module _ (env : Env) where
  -- The batch is not processed yet, and the calls so far are in order.
  abbrev Unprocessed : Trace → Type 0
  Unprocessed t = (processed t ≡ false) × (is_ordered env t ≡ true)

  abbrev Ends : Trace → M Acknowledge → Type 0
  Ends t m = is_ordered env (m t).1 ≡ true
