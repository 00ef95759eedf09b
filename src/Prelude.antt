-- ===== src/Prelude.antt =====
-- The names that the modules share: the libraries' and those of the children.
mod Tests
mod Lists
mod Texts
pub mod Int
pub mod Sort
pub mod Sorted
pub mod Result
pub mod Dict
pub mod Parse
pub mod Cut
pub use Tests.*
unfoldable pub use Lists.*
unfoldable pub use rubez_ai.Prelude.Texts.{
  Text, txt, text_eq, is_empty, is_prefix, contains, rune_bytes, byte_len, text_lt, is_space,
  trim_left, trim_right, trim_space,
}
pub use rubez_ai.Prelude.Texts.{text_eq_iff, text_eq_refl}
pub use Prim.Native.Nat.{ℕ, zero, suc, ◌+◌, ◌-◌, ◌*◌, ◌/◌, ◌%◌, ◌≤◌, ◌<◌, min}
pub use Prim.Native.String.{String}
pub use mathlib.Core.Path.{◌≡◌, refl, sym, ap, ◌∙◌, subst}
pub use mathlib.Core.Logic.{◌≢◌, ◌↔◌, ◌⊎◌, inl, inr}
pub use mathlib.Core.Bool.{Bool, true, false, not, ◌&&◌, ◌||◌}
pub use mathlib.Core.Option.{Option, none, some}
pub use mathlib.Core.List.{List, [], ◌∷◌, ◌++◌, map}
pub use native.Mathlib.Omega.{arith}
