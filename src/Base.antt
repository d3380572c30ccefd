-- ===== src/Base.antt =====
-- What every component shares: the libraries' names, the Boolean tests on numbers, the outcome of
-- a C call with the commands that run on a state, and facts about finite sets of addresses.
mod Tests
mod Outcome
mod Fresh
pub mod Int
pub mod Bytes
pub use Tests.*
pub use Outcome.*
pub use Fresh.*
pub use Prim.Native.Nat.{ℕ, zero, suc, ◌+◌, ◌-◌, ◌*◌, ◌/◌, ◌%◌, ◌^◌, ◌≤◌, ◌<◌}
pub use mathlib.Core.Path.{◌≡◌, refl, sym, ap, ◌∙◌}
pub use mathlib.Core.Logic.{◌≢◌, ◌↔◌, ◌⊎◌, inl, inr}
pub use mathlib.Core.Bool.{Bool, true, false, not, ◌&&◌, ◌||◌}
pub use mathlib.Core.Option.{Option, none, some}
pub use mathlib.Core.List.{List, [], ◌∷◌, ◌++◌}
pub use native.Mathlib.Omega.{arith}
