-- ===== src/Common.antt =====
-- Names shared by every module: the library's, passed on, and those of the children below.
mod Tests
mod Lists
mod Equality
mod Results
mod Orders
pub use Tests.*
pub use Lists.*
pub use Equality.*
pub use Results.*
pub use Orders.*
pub use Prim.Native.Nat.{
  ℕ, compare, Ordering, lt, eq, gt, zero, suc, ◌+◌, ◌-◌, ◌*◌, ◌/◌, ◌%◌, ◌^◌, ◌≤◌, ◌<◌,
}
pub use mathlib.Core.Path.{◌≡◌, refl, sym, ap, subst, ◌∙◌}
pub use mathlib.Core.Logic.{◌≢◌, ◌↔◌, ◌⊎◌, inl, inr}
pub use mathlib.Core.Bool.{Bool, true, false, not, ◌&&◌, ◌||◌, decide}
pub use mathlib.Core.Option.{Option, none, some}
pub use mathlib.Core.List.{List, [], ◌∷◌, ◌++◌, map, append-nil, append_assoc}
pub use native.Mathlib.Omega.{arith}
unfoldable pub use native.Mathlib.Decide.{ℕ_discrete}
