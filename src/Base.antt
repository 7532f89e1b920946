-- ===== src/Base.antt =====
-- Names that the other modules share: the libraries', passed on, and those of the modules below.
mod Tests
mod Lists
mod Sums
mod Keys
mod Results
pub mod Int
pub mod Dict
pub mod Text
pub mod Time
pub mod Float
pub mod Sort
pub use Tests.*
pub use Lists.*
unfoldable pub use Sums.*
unfoldable pub use Keys.*
pub use Results.*
pub use Prim.Native.Nat.{ℕ, zero, suc, ◌+◌, ◌-◌, ◌*◌, ◌/◌, ◌%◌, ◌^◌, ◌≤◌, ◌<◌}
pub use mathlib.Core.Path.{◌≡◌, refl, sym, ap, ◌∙◌, subst, fun_ext}
pub use mathlib.Core.Logic.{◌≢◌, ◌↔◌, ◌⊎◌, inl, inr}
pub use mathlib.Core.Bool.{Bool, true, false, ◌&&◌, ◌||◌, not}
pub use mathlib.Core.Option.{Option, none, some}
pub use mathlib.Core.List.{List, [], ◌∷◌, ◌++◌, map}
pub use native.Mathlib.Omega.{arith}
unfoldable pub use native.Mathlib.Decide.{dec_le, dec_lt, ℕ_discrete}
