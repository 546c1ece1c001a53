-- ===== src/Base.antt =====
-- The names that the other modules share: the libraries', passed on, and those of the children.
mod Tests
mod Lists
mod Text
mod Number
pub mod Occurs
pub mod Spaces
pub mod Decimal
pub mod Base64
pub mod Hex
pub mod Bytes
pub use Tests.*
unfoldable pub use Tests.{all_from}
pub use Lists.*
pub use Prim.Native.Nat.{ℕ, zero, suc, ◌+◌, ◌-◌, ◌*◌, ◌/◌, ◌%◌, ◌^◌, ◌≤◌, ◌<◌, min, max}
pub use Prim.Native.String.{String}
pub use mathlib.Core.Path.{◌≡◌, refl, sym, ap, ap₂, subst, ◌∙◌}
pub use mathlib.Core.Logic.{◌≢◌, ◌↔◌, ◌⊎◌, inl, inr}
pub use mathlib.Core.Bool.{Bool, true, false, not, ◌&&◌, ◌||◌}
pub use mathlib.Core.Option.{Option, none, some}
pub use mathlib.Core.List.{List, [], ◌∷◌, ◌++◌, map, append_assoc, append-nil}
pub use native.Mathlib.Omega.{arith}
unfoldable pub use native.Mathlib.Decide.{ℕ_discrete, dec_lt}
pub use Number.{ℤ, pos, negsuc}
unfoldable pub use Number.{at_least, show_loop, show_ℕ, show_ℤ}
pub use Text.{Str, codes, is_empty, eq_str_iff, eq_str_refl}
unfoldable pub use Text.{
  eq_str, starts_with, contains, contains_any, to_lower, lower, remove_prefix, last,
}
