-- ===== src/Prelude.antt =====
-- Names that the other modules share: the libraries', passed on, and those of the children below.
mod Tests
mod Lists
mod Raising
mod Texts
mod Dicts
mod Prefixes
mod Keys
pub use Tests.*
pub use Lists.*
pub use Raising.*
pub use Texts.*
unfoldable pub use Prefixes.{take, drop}
pub use Keys.{NoKey, DistinctKeys, pop-NoKey, pop-assign, assign-DistinctKeys}
pub use Prefixes.{take-drop, take-append, All-take, All-append, All-append_right}
unfoldable pub use Dicts.{lookup, assign, pop}
pub use Dicts.{lookup-assign_self, lookup-assign_ne, assign_again}
pub use Prim.Native.Nat.{ℕ, zero, suc, ◌+◌, ◌-◌, ◌*◌, ◌/◌, ◌%◌, ◌^◌, ◌≤◌, ◌<◌}
pub use Prim.Native.String.{String}
pub use mathlib.Core.Path.{◌≡◌, refl, sym, ap, ◌∙◌, subst}
pub use mathlib.Core.Logic.{◌≢◌, ◌↔◌, ◌⊎◌, inl, inr}
pub use mathlib.Core.Bool.{Bool, true, false, not, ◌&&◌, ◌||◌}
pub use mathlib.Core.Option.{Option, none, some}
pub use mathlib.Core.List.{List, [], ◌∷◌, ◌++◌, map}
pub use native.Mathlib.Omega.{arith}
pub use text.Mathlib.Text.{◌==◌ as str_eq}
pub use text.Mathlib.TextEquality.{eq_iff}
