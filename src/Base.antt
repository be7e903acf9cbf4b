-- ===== src/Base.antt =====
-- The names that the other modules share: the libraries', passed on, and those of the children.
mod Tests
mod Int
mod Lists
mod Text
mod Order
pub use Tests.*
pub use Text.{◌<>◌}
pub use Order.{str_lt_trans, str_lt_total, str_lt_asymm}
unfoldable pub use Text.{decimal, signed, is_truthy, str_lt}
pub use Lists.{length, All, All-filter, lookup-insert, lookup-erase}
unfoldable pub use Lists.{filter, find?, any, all, contains, distinct, lookup, insert, erase}
pub use Int.{ℤ, pos, negsuc, pos_part, neg_part, leb_ℤ, pos-+ℤ, pos--ℤ}
unfoldable pub use Int.{◌+ℤ◌, ◌-ℤ◌}
pub use Prim.Native.Nat.{ℕ, zero, suc, ◌+◌, ◌-◌, ◌*◌, ◌/◌, ◌≤◌, ◌<◌, min, max}
pub use Prim.Native.String.{String}
pub use mathlib.Core.Path.{◌≡◌, refl, sym, ap, ◌∙◌}
pub use mathlib.Core.Logic.{◌≢◌, ◌↔◌, ◌⊎◌, inl, inr}
pub use mathlib.Core.Bool.{Bool, true, false, not, ◌&&◌, ◌||◌}
pub use mathlib.Core.Option.{Option, none, some}
pub use mathlib.Core.List.{List, [], ◌∷◌, ◌++◌, map}
pub use native.Mathlib.Omega.{arith}
pub use text.Mathlib.Text.{◌==◌ as str_eq}
pub use text.Mathlib.TextEquality.{eq_iff}
