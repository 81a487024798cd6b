-- ===== src/Prelude.antt =====
-- The names that the other modules share: the libraries', passed on, and those of the children.
mod Tests
mod Lists
mod Dicts
mod Results
mod Ints
mod Sorting
mod Order
mod Sets
mod Texts
pub use Tests.*
pub use Lists.*
unfoldable pub use Dicts.{Dict, lookup, insert, keys}
pub use Dicts.{lookup-insert_self, lookup-insert_ne, All-lookup, All-insert, All-keys-lookup}
pub use Results.*
unfoldable pub use Ints.{◌+ℤ◌, excess}
pub use Ints.*
unfoldable pub use Sets.{contains, count, unique, sorted_set, intersects, subset}
unfoldable pub use Texts.{is_blank}
unfoldable pub use Sorting.{sorted}
pub use Order.*
pub use Sets.{All-of-unique}
pub use Sorting.{str_leb, All-sorted, All-of-sorted, length-sorted}
pub use Prim.Native.Nat.{ℕ, zero, suc, ◌+◌, ◌-◌, ◌*◌, ◌/◌, ◌%◌, ◌≤◌, ◌<◌, min, max}
pub use Prim.Native.String.{String, ◌++◌ as ◌<>◌}
pub use mathlib.Core.Path.{◌≡◌, refl, sym, ap, subst, ◌∙◌}
pub use mathlib.Core.Logic.{◌≢◌, ◌↔◌, ◌⊎◌, inl, inr}
pub use mathlib.Core.Bool.{Bool, true, false, not, ◌&&◌, ◌||◌}
pub use mathlib.Core.Option.{Option, none, some}
pub use mathlib.Core.List.{List, [], ◌∷◌, ◌++◌, map, Memᴰ}
pub use native.Mathlib.Omega.{arith}
pub use text.Mathlib.Text.{◌==◌ as str_eq}
pub use text.Mathlib.TextEquality.{eq_iff as str_eq_iff}
pub use text.Mathlib.TextPositions.{eq_refl as str_eq_refl}
