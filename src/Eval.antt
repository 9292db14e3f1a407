-- ===== src/Eval.antt =====
-- pkg/eval: casts of numbers and aggregate functions.
pub mod Numbers
pub mod Cast
pub mod Agg
pub mod Collect
pub mod Calls
pub mod Bounds
pub mod Average
pub mod Types
pub mod OneType
