-- ===== src/Base.antt =====
-- The names that the other modules share: the libraries', passed on, and those of the children.
mod Tests
mod Lists
pub mod Strings
pub mod Space
pub mod Split
pub mod Case
pub mod Assoc
pub mod Int
pub use Tests.{
  ltb, leb, if◌then◌else◌, Bool-cases, Option-cases, ◌==◌ as nat_eq, eqb_iff as nat_eq_iff,
}
pub use Lists.*
pub use Strings.{
  Text, codes, Lacks, eq_iff, eq_refl, cut_at-eq-some, cut_at-eq-none_iff, cut_at-append,
  has_prefix-append, has_prefix-append_left, append_of_has_prefix, strip_prefix-eq-some,
  strip_prefix-append, Lacks-append, Lacks-append_left, Lacks-append_right,
}
unfoldable pub use Strings.{◌==◌, has_prefix, has_suffix, contains_byte, strip_prefix, cut_at}
unfoldable pub use Split.{split, join}
unfoldable pub use Space.{trim_space}
unfoldable pub use Case.{to_lower, equal_fold, contains, trim_suffix}
pub use Assoc.{
  Dict, lookup-insert, lookup-remove, lookup_inserted, lookup_beside, lookup_removed, lookup_left,
}
unfoldable pub use Assoc.{lookup, insert, remove}
pub use Prim.Native.String.{String}
pub use Prim.Native.Nat.{ℕ, zero, suc, ◌+◌, ◌-◌, ◌*◌, ◌/◌, ◌%◌, ◌≤◌, ◌<◌}
pub use mathlib.Core.Path.{◌≡◌, refl, sym, ap, ◌∙◌}
pub use mathlib.Core.Logic.{◌≢◌, ◌↔◌, ◌⊎◌, inl, inr}
pub use mathlib.Core.Bool.{Bool, true, false, not, ◌&&◌, ◌||◌}
pub use mathlib.Core.Option.{Option, none, some}
pub use mathlib.Core.List.{
  List, [], ◌∷◌, ◌++◌, map, reverse, append_assoc, append-nil, map-append, reverse-append,
  reverse-reverse,
}
pub use native.Mathlib.Omega.{arith}
