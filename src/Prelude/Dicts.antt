-- ===== src/Prelude/Dicts.antt =====
-- Python's dictionaries with text keys, in insertion order: `get`, item assignment and `pop`.
use Prim.Native.String.{String}
use mathlib.Core.Path.{◌≡◌, refl}
use mathlib.Core.Logic.{◌≢◌}
use mathlib.Core.Option.{Option, none, some}
use mathlib.Core.List.{List, [], ◌∷◌}
use native.Mathlib.Omega.{arith}
use text.Mathlib.Text.{◌==◌ as str_eq}
use text.Mathlib.TextEquality.{eq_iff}
use gpt_market_neutral_crypt.Prelude.Tests.{if◌then◌else◌}

unfoldable pub lookup {ℓ} : {A : Type ℓ} → String → List (String × A) → Option A
lookup s [] = none
lookup s ((t, a) ∷ rest) = if str_eq s t then some a else lookup s rest

unfoldable pub assign {ℓ} : {A : Type ℓ} → String → A → List (String × A) → List (String × A)
assign s a [] = (s, a) ∷ []
assign s a ((t, b) ∷ rest) = if str_eq s t then (t, a) ∷ rest else (t, b) ∷ assign s a rest

unfoldable pub pop {ℓ} : {A : Type ℓ} → String → List (String × A) → List (String × A)
pop s [] = []
pop s ((t, b) ∷ rest) = if str_eq s t then rest else (t, b) ∷ pop s rest

module _ {ℓ} {A : Type ℓ} where
  pub lookup-assign_self :
      (s : String) (a : A) (d : List (String × A)) → lookup s (assign s a d) ≡ some a
  unfolding lookup assign
  lookup-assign_self s a [] = ground (arith, (eq_iff s s).1 refl)
  lookup-assign_self s a ((t, b) ∷ rest) = ground (arith, lookup-assign_self s a rest)

  pub lookup-assign_ne :
      (s t : String) (a : A) (d : List (String × A)) → t ≢ s → lookup t (assign s a d) ≡ lookup t d
  unfolding lookup assign
  lookup-assign_ne s t a [] h = ground (arith, (eq_iff t s).0)
  lookup-assign_ne s t a ((u, b) ∷ rest) h =
      ground (arith, lookup-assign_ne s t a rest h, eq_iff s u, eq_iff t u)

  -- What stands there already changes nothing.
  pub assign_again :
      (s : String) (a : A) (d : List (String × A)) → lookup s d ≡ some a → assign s a d ≡ d
  unfolding lookup assign
  assign_again s a [] h = cc
  assign_again s a ((t, b) ∷ rest) h = ground (arith, assign_again s a rest)
