-- ===== src/Wfmodel.antt =====
-- pkg/wfmodel: the workflow history rows, and the statuses that are derived from them.
pub mod Row
pub mod Status
pub mod BatchHistory
pub mod NodeHistory
pub mod RunHistory
pub mod RunProperties
