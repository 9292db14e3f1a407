-- ===== src/Wfdb.antt =====
-- pkg/wfdb: the counter that numbers the runs of a keyspace.
pub mod RunCounter
pub mod Callers
pub mod Rounds
pub mod Counter
pub mod Refinement
pub mod Unique
