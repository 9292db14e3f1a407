-- ===== src/Dpc.antt =====
-- pkg/dpc, with what it uses of pkg/sc and pkg/eval: the dependency policy that decides whether a
-- node may run.
pub mod Expr
pub mod Key
pub mod Digits
pub mod IntKeys
pub mod KeyOrder
pub mod Policy
pub mod Default
pub mod Soundness
pub mod FirstMatch
pub mod Go
