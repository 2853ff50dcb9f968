-- ===== src/Prelude/Keys.antt =====
-- Dictionaries whose keys are distinct, under assignment and `pop`.
use Prim.Native.String.{String}
use mathlib.Core.Path.{◌≡◌, refl}
use mathlib.Core.Logic.{◌≢◌, inl, inr}
use mathlib.Core.Option.{none}
use mathlib.Core.List.{List, [], ◌∷◌}
use native.Mathlib.Omega.{arith}
use text.Mathlib.Text.{◌==◌ as str_eq}
use text.Mathlib.TextEquality.{eq_iff}
use gpt_market_neutral_crypt.Prelude.Tests.{Bool-cases}
use gpt_market_neutral_crypt.Prelude.Lists.{All}
use gpt_market_neutral_crypt.Prelude.Texts.{different}
use gpt_market_neutral_crypt.Prelude.Dicts.{lookup, assign, pop}

-- No member of a dictionary has the key.
abbrev pub NoKey : {A : Type 0} → String → List (String × A) → Type 0
NoKey {A = A} s d = All (λ (x : String × A). x.0 ≢ s) d

-- The keys of a dictionary are distinct.
abbrev pub DistinctKeys : {A : Type 0} → List (String × A) → Type 0
DistinctKeys [] = Unit
DistinctKeys ((s, a) ∷ rest) = NoKey s rest × DistinctKeys rest

module _ {A : Type 0} where
  pop-NoKey_kept : (s t : String) (d : List (String × A)) → NoKey t d → NoKey t (pop s d)
  unfolding pop
  pop-NoKey_kept s t [] n = tt
  pop-NoKey_kept s t ((u, a) ∷ rest) n = ground (arith, pop-NoKey_kept s t rest n.1)

  -- Without one of its keys a dictionary has distinct keys, and not that one.
  pub pop-NoKey :
      (s : String) (d : List (String × A))
      → DistinctKeys d
      → NoKey s (pop s d) × DistinctKeys (pop s d)
  unfolding pop
  pop-NoKey s [] n = (tt, tt)
  pop-NoKey s ((u, a) ∷ rest) n = elim (Bool-cases (str_eq s u)) [
    | inl t ↦ let same : s ≡ u = (eq_iff s u).0 t in rw t (rw same n.0, n.1)
    | inr f ↦
        let (gone, distinct) = pop-NoKey s rest n.1 in
        let other : u ≢ s = λ p. ground (arith, eq_iff s u) in
        rw f ((other, gone), (pop-NoKey_kept s u rest n.0, distinct))
  ]

  pub pop-assign :
      (s : String) (a : A) (d : List (String × A)) → lookup s d ≡ none → pop s (assign s a d) ≡ d
  unfolding pop assign lookup
  pop-assign s a [] h = ground (arith, (eq_iff s s).1 refl)
  pop-assign s a ((t, b) ∷ rest) h = ground (arith, pop-assign s a rest)

  assign-NoKey :
      (s t : String) (a : A) (d : List (String × A)) → s ≢ t → NoKey t d → NoKey t (assign s a d)
  unfolding assign
  assign-NoKey s t a [] other n = (other, tt)
  assign-NoKey s t a ((u, b) ∷ rest) other n = ground (arith, assign-NoKey s t a rest other n.1)

  -- Assigning keeps the keys distinct.
  pub assign-DistinctKeys :
      (s : String) (a : A) (d : List (String × A)) → DistinctKeys d → DistinctKeys (assign s a d)
  unfolding assign
  assign-DistinctKeys s a [] k = (tt, tt)
  assign-DistinctKeys s a ((u, b) ∷ rest) k = elim (Bool-cases (str_eq s u)) [
    | inl same ↦ rw same k
    | inr other ↦
        rw other
          (assign-NoKey s u a rest (different s u other) k.0, assign-DistinctKeys s a rest k.1)
  ]
