-- ===== src/Common.antt =====
-- The names that the other modules share: the libraries', passed on, and those of the children.
mod Tests
mod Lists
mod Dict
mod Rows
pub use Tests.*
pub use Lists.*
unfoldable pub use Dict.{lookup, put}
pub use Dict.{lookup-put}
unfoldable pub use Rows.{find_row, set_row, keep_rows, sum_rows, remove_row}
pub use Rows.{
  sum_rows-set_row, sum_rows-keep_rows-le, find_row-holds, find_row-set_row, find_row-set_row_other,
  find_row-keep_rows_kept, find_row-keep_rows_gone, sum_rows-split, sum_rows-eq,
  sum_rows-remove_row, find_row-set_row_both, find_row-and,
}
pub use Prim.Native.Nat.{ℕ, zero, suc, ◌+◌, ◌-◌, ◌*◌, ◌/◌, ◌%◌, ◌^◌, ◌≤◌, ◌<◌, min, max}
pub use Prim.Native.String.{String}
pub use mathlib.Core.Path.{◌≡◌, refl, sym, ap, ◌∙◌, subst}
pub use mathlib.Core.Logic.{◌≢◌, ◌↔◌, ◌⊎◌, inl, inr}
pub use mathlib.Core.Bool.{Bool, true, false, not, ◌&&◌, ◌||◌}
pub use mathlib.Core.Option.{Option, none, some}
pub use mathlib.Core.List.{List, [], ◌∷◌, ◌++◌, map}
pub use native.Mathlib.Omega.{arith}
pub use text.Mathlib.Text.{◌==◌ as str_eq}
pub use text.Mathlib.TextEquality.{eq_iff}
