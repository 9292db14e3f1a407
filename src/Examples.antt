-- ===== src/Examples.antt =====
-- Runs of the models at concrete inputs.
mod Queue
mod Histories
mod Policies
mod Handler
mod Scripts
mod Envelopes
mod Runs
mod Statements
mod Aggregates
mod Starts
mod Access
mod Exchanges
mod Daemons
