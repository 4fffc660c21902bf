-- ===== src/Base.antt =====
-- The names that the other modules share: the libraries', passed on, and those of the children.
mod Tests
mod Lists
mod Int
mod Loops
mod Members
mod Sums
pub mod Tables
pub use Tests.*
pub use Lists.*
pub use Int.*
unfoldable pub use Loops.{for_range, sum_range}
pub use Sums.{sum_range-update, sum_range-congr, sum_range-zero, sum_range-update_lt}
pub use Members.{In, In-append_left, In-append_right, In-append, In-flat_range, flat_range-In}
unfoldable pub use Members.{flat_range}
pub use Prim.Native.Nat.{ℕ, zero, suc, ◌+◌, ◌-◌, ◌*◌, ◌/◌, ◌%◌, ◌^◌, ◌≤◌, ◌<◌}
pub use mathlib.Core.Path.{◌≡◌, refl, sym, ap, ◌∙◌, fun_ext, subst}
pub use mathlib.Core.Logic.{◌≢◌, ◌↔◌, ◌⊎◌, inl, inr}
pub use mathlib.Core.Bool.{Bool, true, false, not, ◌&&◌, ◌||◌}
pub use mathlib.Core.Option.{Option, none, some}
pub use mathlib.Core.List.{List, [], ◌∷◌, ◌++◌, map}
pub use native.Mathlib.Omega.{arith}
