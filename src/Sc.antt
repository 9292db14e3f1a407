-- ===== src/Sc.antt =====
-- pkg/sc: the batches of a node, the affected nodes of a script, and what may be read and written.
pub mod Batches
pub mod Tiling
pub mod Affected
pub mod Visits
pub mod Reach
pub mod Manual
pub mod ManualSet
pub mod Starts
pub mod Start
pub mod Access
pub mod Containment
pub mod Paths
pub mod Allowed
pub mod Fetching
