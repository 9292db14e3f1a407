-- ===== src/Prelude.antt =====
-- Names that every module of the development shares: the libraries', passed on, and those of
-- the children: Boolean tests, lists, signed 64-bit integers, byte strings, sorting,
-- maps, results with an error, decimal texts.
mod Tests
mod Lists
mod Elements
pub mod Int
pub mod Text
pub mod Sort
pub mod Assoc
pub mod IntMap
pub mod Trim
pub mod Outcome
pub mod Decimal
pub use Tests.*
pub use Lists.*
pub use Elements.*
pub use Prim.Native.Nat.{ℕ, zero, suc, ◌+◌, ◌-◌, ◌*◌, ◌/◌, ◌%◌, ◌^◌, ◌≤◌, ◌<◌}
pub use mathlib.Core.Path.{◌≡◌, refl, sym, ap, ◌∙◌}
pub use mathlib.Core.Logic.{◌≢◌, ◌⊎◌, inl, inr}
pub use mathlib.Core.Bool.{Bool, true, false, not, ◌&&◌, ◌||◌}
pub use mathlib.Core.Option.{Option, none, some}
pub use mathlib.Core.List.{List, [], ◌∷◌, ◌++◌, map}
pub use native.Mathlib.Omega.{arith}
