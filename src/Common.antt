-- ===== src/Common.antt =====
-- The names that the other modules share: the libraries', passed on, and those of the children.
pub mod Tests
pub mod Lists
pub mod Strings
pub mod Order
pub mod Sort
pub mod Permute
pub mod Int
pub mod Dict
pub use Prim.Native.Nat.{
  ℕ, zero, suc, ◌+◌, ◌-◌, ◌*◌, ◌/◌, ◌%◌, ◌^◌, ◌≤◌, ◌<◌, compare, Ordering, min, max,
}
pub use Prim.Native.String.{String}
pub use mathlib.Core.Path.{◌≡◌, refl, sym, ap, subst, ◌∙◌}
pub use mathlib.Core.Logic.{◌≢◌, ◌↔◌, ◌⊎◌, inl, inr}
pub use mathlib.Core.Bool.{Bool, true, false, not, ◌&&◌, ◌||◌}
pub use mathlib.Core.Option.{Option, none, some}
pub use mathlib.Core.List.{List, [], ◌∷◌, ◌++◌, map, Perm, append_assoc, append-nil}
pub use native.Mathlib.Omega.{arith}
pub use Tests.*
pub use Lists.*
pub use Strings.{
  Text, codes, compare_text, mem_text, starts_with, compare_text-eq, compare_text-IsOrder,
  text_eq_iff,
}
unfoldable pub use Strings.{text_eq, contains}
pub use Order.*
unfoldable pub use Sort.{sorted}
pub use Sort.{All-sorted, All-of_sorted, AllPairs-sorted, sorted-AllPairs, any-sorted}
pub use Permute.{sorted-perm}
pub use Int.*
