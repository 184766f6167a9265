-- ===== src/Prelude.antt =====
-- The names that the other modules share: the libraries', passed on, and those of the children.
pub mod Tests
pub mod Lists
pub mod Text
pub mod Numbers
pub mod Sort
pub mod Recent
pub use Tests.{
  ltb, leb, nat_beq, if◌then◌else◌, ltb→lt, lt→ltb, leb→le, Bool-cases, Option-cases,
  some-injective, Eq, ◌==◌, ==_iff, ==_refl, ==_ne, nat_eq, nat_beq_iff,
}
unfoldable pub use Lists.{filter, all, any}
pub use Lists.{length, get_elem?, All, length-append}
unfoldable pub use Text.{
  text_beq, lower_char, lower, upper_char, upper, lstrip, rstrip, strip, replace_char, starts_with,
  contains, has_char, every,
}
pub use Text.{codes, text_beq_iff, text_eq, truthy, lower_char-lower_char, lower-lower}
pub use Prim.Native.Nat.{ℕ, zero, suc, ◌+◌, ◌-◌, ◌*◌, ◌/◌, ◌%◌, ◌^◌, ◌≤◌, ◌<◌, min}
pub use mathlib.Core.Path.{◌≡◌, refl, sym, ap, ◌∙◌}
pub use mathlib.Core.Logic.{◌≢◌, ◌↔◌, ◌⊎◌, inl, inr}
pub use mathlib.Core.Bool.{Bool, true, false, not, ◌&&◌, ◌||◌}
pub use mathlib.Core.Option.{Option, none, some}
pub use mathlib.Core.List.{List, [], ◌∷◌, ◌++◌, map}
pub use native.Mathlib.Omega.{arith}
