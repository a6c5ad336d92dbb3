-- ===== src/Base.antt =====
-- The names that every part shares: the libraries', passed on, and those of the children.
mod Tests
mod Lists
mod Results
mod Names
mod Members
pub use Tests.*
pub use Lists.*
pub use Results.*
pub use Members.*
unfoldable pub use Tests.{String_discrete, leb_text, names_discrete, optional_discrete}
unfoldable pub use Names.{is_space, is_blank, name_set, sort_by}
pub use Names.{
  NameSet, length-sort_by, is_empty-sort_by, sorted, contains-sorted, contains-name_set, disjoint,
  subset,
}
pub use Prim.Native.Nat.{ℕ, zero, suc, ◌+◌, ◌-◌, ◌*◌, ◌/◌, ◌%◌, ◌≤◌, ◌<◌, min, max}
pub use Prim.Native.String.{String}
pub use mathlib.Core.Path.{◌≡◌, refl, sym, ap, ◌∙◌, subst}
pub use mathlib.Core.Logic.{◌≢◌, ◌↔◌, ◌⊎◌, inl, inr}
pub use mathlib.Core.Bool.{Bool, true, false, ◌&&◌, ◌||◌, not}
pub use mathlib.Core.Option.{Option, none, some}
pub use mathlib.Core.List.{List, [], ◌∷◌, ◌++◌, map, reverse, append-nil, append_assoc}
pub use native.Mathlib.Omega.{arith}
unfoldable pub use native.Mathlib.Decide.{ℕ_discrete}
