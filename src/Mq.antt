-- ===== src/Mq.antt =====
-- The message queue over HTTP: the server exe/mq/capimq.go around the broker, and its client
-- pkg/mq/capimq_async_consumer.go.
pub mod Routes
pub mod Moves
pub mod Server
pub mod Client
pub mod Exchange
pub mod Consumer
pub mod Counting
pub mod Drain
