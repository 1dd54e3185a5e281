-- ===== src/Prelude.antt =====
-- The names that the other modules share: the libraries', passed on, and those of the children.
mod Tests
mod Lists
mod Sort
mod Select
mod Texts
pub mod Order
pub mod Keyed
pub use Tests.*
pub use Lists.*
unfoldable pub use Sort.{sort_by}
pub use Sort.{
  sum_by, sort_by-perm, sum_by-sort_by, All-sort_by, All-of-sort_by, larger, HeadLeast,
  sort_by-HeadLeast,
}
unfoldable pub use Select.{select}
pub use Select.{All-select, length-select, take-all}
unfoldable pub use Texts.{index_of, split}
pub use Texts.{Text, codes, cons_head, next_index, Lacks, split-append, split-whole}
pub use Prim.Native.Nat.{ℕ, zero, suc, ◌+◌, ◌-◌, ◌*◌, ◌/◌, ◌%◌, ◌^◌, ◌≤◌, ◌<◌, min, max}
pub use Prim.Native.String.{String}
pub use mathlib.Core.Path.{◌≡◌, refl, sym, ap, subst, ◌∙◌}
pub use mathlib.Core.Logic.{◌≢◌, ◌↔◌, ◌⊎◌, inl, inr}
pub use mathlib.Core.Bool.{Bool, true, false, ◌&&◌, ◌||◌, not}
pub use mathlib.Core.Option.{Option, none, some}
pub use mathlib.Core.List.{List, [], ◌∷◌, ◌++◌, map}
pub use native.Mathlib.Omega.{arith}
pub use text.Mathlib.TextEquality.{eq_iff}
unfoldable pub use native.Mathlib.Decide.{dec_lt, ℕ_discrete}
