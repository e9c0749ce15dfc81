-- ===== src/Common.antt =====
-- The names that the other modules share: the libraries', passed on, and those of the modules below.
mod Tests
mod Keys
mod Lists
pub mod Dict
pub mod Int
pub mod Search
pub mod Sorting
pub use Tests.*
pub use Lists.*
unfoldable pub use Lists.{keep}
pub use Keys.{
  Eq, ◌==◌, nat_eq, string_eq, contains-append, contains-add_key, contains-discard, eq_refl, Unique,
  Unique-snoc, Unique-add_key, contains-keep, All-at, All-intro,
}
unfoldable pub use Keys.{contains, add_key, discard}
pub use Prim.Native.Nat.{ℕ, zero, suc, ◌+◌, ◌-◌, ◌*◌, ◌/◌, ◌%◌, ◌≤◌, ◌<◌, min, max}
pub use Prim.Native.String.{String}
pub use mathlib.Core.Path.{◌≡◌, refl, sym, ap, ◌∙◌, subst}
pub use mathlib.Core.Logic.{◌≢◌, ◌↔◌, ◌⊎◌, inl, inr}
pub use mathlib.Core.Bool.{Bool, true, false, ◌&&◌, ◌||◌, not}
pub use mathlib.Core.Option.{Option, none, some}
pub use mathlib.Core.List.{List, [], ◌∷◌, ◌++◌, map}
pub use mathlib.Core.List.{append-nil}
pub use native.Mathlib.Omega.{arith}
