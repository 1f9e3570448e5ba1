-- ===== src/Prelude.antt =====
-- The names that the other modules share: the libraries', passed on, and those of the children.
pub mod Tests
pub mod Lists
pub mod Int
pub mod Errors
pub mod Dict
pub mod Sums
pub use Tests.*
pub use Lists.*
pub use Errors.*
unfoldable pub use Dict.{lookup, insert, amount, total, member, is_subset, all_distinct}
pub use Dict.{lookup-insert-same, lookup-insert-other, lookup-All}
pub use Sums.{sum_of, sum_result, count_if}
unfoldable pub use Sums.{greatest, least}
unfoldable pub use Int.{◌+ℤ◌, ◌-ℤ◌, ◌*ℤ◌, max_ℤ, min_ℤ, div_ℤ, mod_ℤ, ceil_div_ℤ}
pub use Int.{
  ℤ, pos, negsuc, pos_part, neg_part, sub_ℕ, ◌≤ℤ◌, ◌<ℤ◌, leb_ℤ, ltb_ℤ, eqb_ℤ, ceil_div, +ℤ_parts,
  -ℤ_parts, eq_of_parts, max_ℤ_le, int_laws, ceil_div_enough, ceil_div_least, ceil_div_below,
  ceil_div_mono, ceil_div_lt, gap, gap_lem, ltb→<ℤ, <ℤ→ltb, ltb-false→≤ℤ, ≤ℤ→ltb-false, min_ℤ_le,
  leb→≤ℤ, ≤ℤ→leb, leb-false→<ℤ, <ℤ→leb-false, ceil_div_ℤ-pos, *ℤ-pos, +ℤ-pos, -ℤ-pos,
}
pub use Prim.Native.Nat.{ℕ, zero, suc, ◌+◌, ◌-◌, ◌*◌, ◌/◌, ◌%◌, ◌≤◌, ◌<◌, min, max}
pub use Prim.Native.String.{String}
pub use text.Mathlib.Text.{◌==◌ as str_eq}
pub use text.Mathlib.TextEquality.{eq_iff}
pub use text.Mathlib.TextPositions.{eq_refl}
pub use mathlib.Core.Path.{◌≡◌, refl, sym, ap, ◌∙◌, subst}
pub use mathlib.Core.Logic.{◌≢◌, ◌↔◌, ◌⊎◌, inl, inr}
pub use mathlib.Core.Bool.{Bool, true, false, not, ◌&&◌, ◌||◌}
pub use mathlib.Core.Option.{Option, none, some}
pub use mathlib.Core.List.{List, [], ◌∷◌, ◌++◌, map}
pub use native.Mathlib.Omega.{arith}
