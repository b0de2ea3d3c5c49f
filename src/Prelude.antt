-- ===== src/Prelude.antt =====
-- The names that the other modules share: the libraries', passed on, and those of the children.
mod Tests
mod Lists
mod Equality
mod Texts
mod Maps
mod Outcomes
mod Encoding
mod Words
pub use Tests.*
pub use Lists.*
pub use Equality.*
pub use Texts.*
unfoldable pub use Texts.{strip_prefix, starts_with, replace_slash, decimal}
pub use Maps.*
unfoldable pub use Maps.{get, insert, remove, values}
pub use Outcomes.*
pub use Encoding.*
pub use Words.*
unfoldable pub use Words.{
  is_whitespace, trim_start, before_trimmed, trim_end, trim, is_blank, split_first, split_parts,
  split,
}
unfoldable pub use Encoding.{lex_lt, le_bytes, from_le_bytes, be_bytes, from_be_bytes}
pub use Prim.Native.Nat.{ℕ, zero, suc, ◌+◌, ◌-◌, ◌*◌, ◌/◌, ◌%◌, ◌^◌, ◌≤◌, ◌<◌, min, max}
pub use mathlib.Core.Path.{◌≡◌, refl, sym, ap, ◌∙◌, subst, fun_ext}
pub use mathlib.Core.Logic.{◌≢◌, ◌↔◌, ◌⊎◌, inl, inr}
pub use mathlib.Core.Bool.{Bool, true, false, not, ◌&&◌, ◌||◌}
pub use mathlib.Core.Option.{Option, none, some}
pub use mathlib.Core.List.{List, [], ◌∷◌, ◌++◌, map, append_assoc, append-nil}
pub use native.Mathlib.Omega.{arith}
