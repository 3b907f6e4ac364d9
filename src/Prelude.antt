-- ===== src/Prelude.antt =====
-- Names that every module shares: the library's, passed on, and the children's tests on numbers,
-- lists, sets of identifiers, results and sorting.
mod Tests
mod Lists
mod Results
mod Sets
mod Sorting
mod Perms
mod Int
pub use Tests.*
pub use Lists.*
pub use Results.*
pub use Sets.*
pub use Sorting.*
pub use Perms.*
pub use Int.*
pub use Prim.Native.Nat.{ℕ, zero, suc, ◌+◌, ◌-◌, ◌*◌, ◌/◌, ◌%◌, ◌^◌, ◌≤◌, ◌<◌, min, max}
pub use mathlib.Core.Path.{◌≡◌, refl, sym, ap, ap₂, subst, ◌∙◌}
pub use mathlib.Core.Logic.{◌≢◌, ◌↔◌, ◌⊎◌, inl, inr}
pub use mathlib.Core.Bool.{Bool, true, false, ◌&&◌, ◌||◌, not}
pub use mathlib.Core.Option.{Option, none, some}
pub use mathlib.Core.List.{List, [], ◌∷◌, ◌++◌, map}
pub use native.Mathlib.Omega.{arith}
