-- ===== src/Prelude.antt =====
-- The names that the other modules share: the library's, passed on, and those of the children.
pub mod Tests
pub mod Lists
pub mod Strings
pub mod Ints
pub mod Maps
pub use Tests.*
pub use Lists.*
pub use Maps.{lookup-insert, lookup-remove}
unfoldable pub use Maps.{lookup, insert, remove}
pub use Ints.{ℤ, pos, negsuc}
pub use Strings.{str_ne_head, str_ne_nil, to_hex_zero, u64_mod}
unfoldable pub use Strings.{to_hex, to_decimal, parse_hex, from_str_radix, emit}
pub use text.Mathlib.Text.{◌==◌ as str_eq, starts_with}
pub use text.Mathlib.TextEquality.{eq_iff}
pub use text.Mathlib.TextPositions.{eq_refl}
pub use Prim.Native.Nat.{ℕ, zero, suc, ◌+◌, ◌-◌, ◌*◌, ◌/◌, ◌%◌, ◌^◌, ◌≤◌, ◌<◌, min, max}
pub use Prim.Native.String.{String}
pub use mathlib.Core.Path.{◌≡◌, refl, sym, ap, subst, ◌∙◌}
pub use mathlib.Core.Logic.{◌≢◌, ◌↔◌, ◌⊎◌, inl, inr}
pub use mathlib.Core.Bool.{Bool, true, false, not, ◌&&◌, ◌||◌}
pub use mathlib.Core.Option.{Option, none, some}
pub use mathlib.Core.List.{List, [], ◌∷◌, ◌++◌, map}
pub use native.Mathlib.Omega.{arith}
