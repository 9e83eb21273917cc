-- ===== src/Base.antt =====
-- The names that the other modules share: the libraries', passed on, and those of the children
-- `Tests` (Boolean tests, the conditional), `Lists` and `Chars`.
mod Tests
mod Lists
pub mod Result
pub mod Int
pub mod Effect
mod Chars
mod Strip
mod Remove
mod Pigeonhole
mod Decimal
mod Trim
pub use Tests.*
pub use Lists.*
pub use Strip.*
pub use Remove.*
pub use Pigeonhole.*
unfoldable pub use Decimal.*
pub use Trim.*
unfoldable pub use Chars.*
pub use Prim.Native.Nat.{ℕ, zero, suc, ◌+◌, ◌-◌, ◌*◌, ◌/◌, ◌%◌, ◌≤◌, ◌<◌, min, max}
pub use Prim.Native.String.{String}
pub use mathlib.Core.Path.{◌≡◌, refl, sym, ap, ◌∙◌, subst}
pub use mathlib.Core.Logic.{◌≢◌, ◌↔◌, ◌⊎◌, inl, inr}
pub use mathlib.Core.Bool.{Bool, true, false, ◌&&◌, ◌||◌, not}
pub use mathlib.Core.Option.{Option, none, some}
pub use mathlib.Core.List.{List, [], ◌∷◌, ◌++◌, map}
pub use native.Mathlib.Omega.{arith}
