-- ===== src/Broker.antt =====
-- pkg/capimq/message_broker.go: the queue of pending messages and the map of claimed ones.
pub mod Message
pub mod Ops
pub mod Views
pub mod Loop
pub mod Order
pub mod Claim
pub mod Accounting
pub mod Purge
pub mod Claimed
pub mod Removal
pub mod Run
pub mod Delivery
