-- ===== src/Prelude/Texts.antt =====
-- Optional texts and enumerations compared by Boolean tests, as `==` compares JSON values.

use Prim.Native.String.{String}
use mathlib.Core.Path.{◌≡◌, refl}
use mathlib.Core.Logic.{◌≢◌, ◌↔◌}
use mathlib.Core.Bool.{Bool, true, false}
use mathlib.Core.Option.{Option, none, some}
use native.Mathlib.Omega.{arith}
use text.Mathlib.Text.{◌==◌ as str_eq}
use text.Mathlib.TextEquality.{eq_iff}

-- Two values that are each a text or null.
abbrev pub opt_eq : Option String → Option String → Bool
opt_eq none none = true
opt_eq (some a) (some b) = str_eq a b
opt_eq _ _ = false

pub opt_eq_iff : (a b : Option String) → (opt_eq a b ≡ true) ↔ (a ≡ b)
opt_eq_iff none none = (λ h. refl, λ h. refl)
opt_eq_iff none (some b) = (λ h. cc, λ h. cc)
opt_eq_iff (some a) none = (λ h. cc, λ h. cc)
opt_eq_iff (some a) (some b) = (λ h. ground (arith, eq_iff a b), λ h. ground (arith, eq_iff a b))

-- `isinstance(value, str)`
abbrev pub is_text : Option String → Bool
is_text none = false
is_text (some s) = true

abbrev pub is_null : Option String → Bool
is_null none = true
is_null (some s) = false

pub different : (s t : String) → str_eq s t ≡ false → s ≢ t
different s t h p = ground (arith, eq_iff s t)

pub different_some : (s t : String) → str_eq s t ≡ false → some s ≢ some t
different_some s t h p = ground (arith, opt_eq_iff (some s) (some t))
