-- ===== src/Api.antt =====
-- pkg/api/message_handler.go: how a worker handles the message of a batch.
pub mod World
pub mod Refresh
pub mod Dependencies
pub mod Checks
pub mod Process
pub mod Calls
pub mod Quiet
pub mod Ordering
pub mod Guards
pub mod Progress
pub mod StartRun
pub mod RunOrder
pub mod RunSends
pub mod RunComplete
pub mod RunMessages
