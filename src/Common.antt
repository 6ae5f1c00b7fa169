-- ===== src/Common.antt =====
-- The names that the other modules share: the libraries', passed on, and those of the children:
-- Boolean tests, exceptions (`Outcome`), lists, dictionaries and texts.
mod Tests
mod Outcomes
mod Lists
mod Texts
pub use Tests.*
pub use Outcomes.*
unfoldable pub use Lists.{lookup, insert}
pub use Lists.{
  length, take, drop, length-append, length-drop, any, all, keep, All, contains, Dict, lookup-nil,
  lookup-cons, insert-cons, insert-nil, lookup-insert, length-insert, insert-new, ne_of_test,
}
pub use Texts.{truthy}
unfoldable pub use Texts.{is_space, strip, lstrip, rstrip, first_word}
pub use Prim.Native.Nat.{ℕ, zero, suc, ◌+◌, ◌-◌, ◌*◌, ◌/◌, ◌%◌, ◌≤◌, ◌<◌, max, min}
pub use Prim.Native.String.{String}
pub use mathlib.Core.Path.{◌≡◌, refl, sym, ap, ◌∙◌, subst}
pub use mathlib.Core.Logic.{◌≢◌, ◌↔◌, ◌⊎◌, inl, inr}
pub use mathlib.Core.Bool.{Bool, true, false, not, ◌&&◌, ◌||◌}
pub use mathlib.Core.Option.{Option, none, some}
pub use mathlib.Core.List.{List, [], ◌∷◌, ◌++◌, map}
pub use native.Mathlib.Omega.{arith}
pub use text.Mathlib.Text.{◌==◌ as str_eq}
pub use text.Mathlib.TextEquality.{eq_iff}
