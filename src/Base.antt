-- ===== src/Base.antt =====
-- The names that the other modules share: the libraries', passed on, and those of the children
-- (tests on numbers, texts as lists of code points, lists, Python's exceptions as values).
mod Tests
mod Strings
mod Lists
mod Int
mod Split
pub mod Dict
pub mod Exceptions
pub mod Actions
pub use Tests.*
unfoldable pub use Strings.*
unfoldable pub use Lists.*
unfoldable pub use Split.*
pub use Int.{ℤ, pos, negsuc, lez_refl, lez_trans}
unfoldable pub use Int.{lez}
pub use Exceptions.{Error, Result, ok, err}
pub use Exceptions.{◌>>=◌, ◌>>◌, guard, Result-cases, bind_ok}
pub use Prim.Native.Nat.{ℕ, zero, suc, ◌+◌, ◌-◌, ◌*◌, ◌/◌, ◌%◌, ◌^◌, ◌≤◌, ◌<◌}
pub use Prim.Native.String.{String}
pub use mathlib.Core.Path.{◌≡◌, refl, sym, ap, subst, ◌∙◌}
pub use mathlib.Core.Logic.{◌≢◌, ◌↔◌, ◌⊎◌, inl, inr}
pub use mathlib.Core.Bool.{Bool, true, false, not, ◌&&◌, ◌||◌}
pub use mathlib.Core.Option.{Option, none, some}
pub use mathlib.Core.List.{List, [], ◌∷◌, ◌++◌, map, map-append, append_assoc, append-nil}
pub use native.Mathlib.Omega.{arith}
