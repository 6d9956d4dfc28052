-- ===== src/Prelude.antt =====
-- The names that the other modules share: the libraries', passed on, and those of the children
-- for Boolean tests, lists, the maps of the program and its 32-bit integers.
mod Tests
mod Lists
mod Assoc
mod Int32
mod Family
mod Sort
mod Distinct
mod Bytes
mod Runs
mod Elements
pub use Tests.*
pub use Lists.*
unfoldable pub use Assoc.*
unfoldable pub use Int32.*
pub use Family.*
pub use Sort.*
pub use Distinct.*
unfoldable pub use Bytes.*
pub use Elements.*
unfoldable pub use Runs.*
pub use Prim.Native.Nat.{ℕ, zero, suc, ◌+◌, ◌-◌, ◌*◌, ◌/◌, ◌%◌, ◌≤◌, ◌<◌}
pub use mathlib.Core.Path.{◌≡◌, refl, sym, ap, subst, ◌∙◌}
pub use mathlib.Core.Logic.{◌≢◌, ◌↔◌, ◌⊎◌, inl, inr}
pub use mathlib.Core.Bool.{Bool, true, false, not, ◌&&◌, ◌||◌}
pub use mathlib.Core.Option.{Option, none, some}
pub use mathlib.Core.List.{List, [], ◌∷◌, ◌++◌, map}
pub use native.Mathlib.Omega.{arith}
unfoldable pub use native.Mathlib.Decide.{dec_lt, ℕ_discrete}
