-- ===== src/Prelude.antt =====
-- The names that the other modules share: the libraries', passed on, and those of the children.
mod Tests
mod Lists
mod Maps
mod Int
mod Sorting
pub use Tests.*
pub use Lists.*
pub use Int.*
unfoldable pub use Sorting.{place, sort}
pub use Sorting.{
  total-sort, All-place, All-sort, IsSorted, IsOrder, sort-IsSorted, sort_of_sorted, All-of_sort,
  Any-of_sort,
}
unfoldable pub use Maps.{lookup, insert, delete}
pub use Maps.{
  Dict, values, lookup-insert, lookup-delete, lookup-insert_self, HasUniqueKeys,
  insert-HasUniqueKeys, delete-HasUniqueKeys, delete_of_none,
}
pub use Prim.Native.Nat.{ℕ, zero, suc, ◌+◌, ◌-◌, ◌*◌, ◌≤◌, ◌<◌}
pub use Prim.Native.String.{String}
pub use mathlib.Core.Path.{◌≡◌, refl, sym, ap, ap₂, subst, ◌∙◌}
pub use mathlib.Core.Logic.{◌≢◌, ◌↔◌, ◌⊎◌, inl, inr}
pub use mathlib.Core.Bool.{Bool, true, false, not, ◌&&◌, ◌||◌}
pub use mathlib.Core.Option.{Option, none, some}
pub use mathlib.Core.List.{List, [], ◌∷◌, ◌++◌, map, reverse}
pub use native.Mathlib.Omega.{arith}
