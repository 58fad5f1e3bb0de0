-- ===== src/Prelude.antt =====
-- The names that every module shares: the library's, passed on, and those of the children, which
-- hold Boolean tests, equality, lists, byte texts and results.
mod Tests
mod Equality
pub mod Lists
pub mod Texts
mod Results
pub mod Maps
pub mod Int
pub mod Sort
unfoldable pub use Tests.*
pub use Equality.*
unfoldable pub use Lists.*
unfoldable pub use Texts.*
pub use Results.*
pub use Prim.Native.Nat.{ℕ, zero, suc, ◌+◌, ◌-◌, ◌*◌, ◌/◌, ◌%◌, ◌^◌, ◌≤◌, ◌<◌}
pub use mathlib.Core.Path.{◌≡◌, refl, sym, ap, ap₂, ◌∙◌, subst}
pub use mathlib.Core.Logic.{◌≢◌, ◌↔◌, ◌⊎◌, inl, inr}
pub use mathlib.Core.Bool.{Bool, true, false, not, ◌&&◌, ◌||◌}
pub use mathlib.Core.Option.{Option, none, some, some-injective}
pub use mathlib.Core.List.{List, [], ◌∷◌, ◌++◌, map, map-id}
pub use native.Mathlib.Omega.{arith}
