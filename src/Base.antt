-- ===== src/Base.antt =====
-- Names of the libraries that the other modules share, and the helpers in the children: Boolean
-- tests, lists, tables of rows, integers and the machine's floating-point numbers.
mod Tests
mod Lists
mod Exists
pub mod Table
pub mod Pages
pub mod Integer
pub mod Float
pub use Tests.*
pub use Lists.*
pub use Exists.*
pub use Prim.Native.Nat.{ℕ, zero, suc, ◌+◌, ◌-◌, ◌*◌, ◌/◌, ◌%◌, ◌^◌, ◌≤◌, ◌<◌, min, max}
pub use mathlib.Core.Path.{◌≡◌, refl, sym, ap, ◌∙◌}
pub use mathlib.Core.Logic.{◌≢◌, ◌↔◌, ◌⊎◌, inl, inr}
pub use mathlib.Core.Bool.{Bool, true, false, ◌&&◌, ◌||◌, not}
pub use mathlib.Core.Option.{Option, none, some}
pub use mathlib.Core.List.{List, [], ◌∷◌, ◌++◌, map}
pub use native.Mathlib.Omega.{arith}
