-- ===== src/Shared.antt =====
-- Names that every module shares: those of the libraries, passed on, and the tests and list
-- functions of the children. Text is a list of code points, as Python's `str` is.
mod Tests
mod Lists
mod Search
mod Sorting
mod Sets
pub use Tests.*
pub use Lists.*
pub use Search.*
unfoldable pub use Sorting.*
unfoldable pub use Sets.*
pub use Prim.Native.Nat.{ℕ, zero, suc, ◌+◌, ◌-◌, ◌*◌, ◌/◌, ◌%◌, ◌≤◌, ◌<◌, min, max}
pub use Prim.Native.String.{String}
pub use mathlib.Core.Path.{◌≡◌, refl, sym, ap, ◌∙◌}
pub use mathlib.Core.Logic.{◌≢◌, ◌↔◌, ◌⊎◌, inl, inr}
pub use mathlib.Core.Bool.{Bool, true, false, not, ◌&&◌, ◌||◌}
pub use mathlib.Core.Option.{Option, none, some}
pub use mathlib.Core.List.{List, [], ◌∷◌, ◌++◌, map}
pub use native.Mathlib.Omega.{arith}
