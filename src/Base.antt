-- ===== src/Base.antt =====
-- The names that the other modules share: the libraries', passed on, and those of the children
-- `Tests` (Boolean tests), `Results` (thrown errors) and `Tables` (rows of a database table).
mod Tests
mod Results
mod Tables
mod Texts
mod Doubles
pub mod Int
pub mod Keys
pub mod Sort
pub mod Rounding
pub use Tests.*
pub use Results.*
pub use Tables.*
pub use Texts.*
unfoldable pub use Doubles.*
pub use Prim.Native.Nat.{ℕ, zero, suc, ◌+◌, ◌-◌, ◌*◌, ◌/◌, ◌%◌, ◌≤◌, ◌<◌}
pub use mathlib.Core.Path.{◌≡◌, refl, sym, ap, ◌∙◌, subst}
pub use mathlib.Core.Logic.{◌≢◌, ◌↔◌, ◌⊎◌, inl, inr}
pub use mathlib.Core.Bool.{Bool, true, false, not, ◌&&◌, ◌||◌}
pub use mathlib.Core.Option.{Option, none, some}
pub use mathlib.Core.List.{List, [], ◌∷◌, ◌++◌, map}
pub use native.Mathlib.Omega.{arith}
