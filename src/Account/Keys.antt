-- ===== src/Account/Keys.antt =====
-- The invariant of `validate_account_state` in futures_fund/account.py on the positions: each is
-- held under its own symbol.
use gpt_market_neutral_crypt.Prelude.{
  ◌≡◌, refl, inl, inr, Option, none, some, List, [], ◌∷◌, String, str_eq, eq_iff, All, Bool-cases,
  sym, ap, ◌∙◌, arith,
}
use gpt_market_neutral_crypt.Account.{Thesis, Position, lookup, assign, pop, assign_thesis}

-- Every position stands under its symbol.
abbrev pub IsKeyed : {R : Type 0} → List (String × Position R) → Type 0
IsKeyed {R = R} positions = All (λ (held : String × Position R). held.1.symbol ≡ held.0) positions

module _ {R : Type 0} where
  pub assign_thesis-symbol :
      (thesis : Option (Thesis R)) (p : Position R) → (assign_thesis thesis p).symbol ≡ p.symbol
  unfolding assign_thesis
  assign_thesis-symbol none p = refl
  assign_thesis-symbol (some t) p = refl

  pub assign-IsKeyed :
      (s : String) (p : Position R) (positions : List (String × Position R))
      → p.symbol ≡ s
      → IsKeyed positions
      → IsKeyed (assign s p positions)
  unfolding assign
  assign-IsKeyed s p [] h k = (h, tt)
  assign-IsKeyed s p ((t, q) ∷ rest) h k = elim (Bool-cases (str_eq s t)) [
    | inl same ↦ rw same (h ∙ (eq_iff s t).0 same, k.1)
    | inr other ↦ rw other (k.0, assign-IsKeyed s p rest h k.1)
  ]

  pub pop-IsKeyed :
      (s : String) (positions : List (String × Position R))
      → IsKeyed positions
      → IsKeyed (pop s positions)
  unfolding pop
  pop-IsKeyed s [] k = tt
  pop-IsKeyed s ((t, q) ∷ rest) k = elim (Bool-cases (str_eq s t)) [
    | inl same ↦ rw same k.1
    | inr other ↦ rw other (k.0, pop-IsKeyed s rest k.1)
  ]

  pub lookup-symbol :
      (s : String) (positions : List (String × Position R)) (p : Position R)
      → IsKeyed positions
      → lookup s positions ≡ some p
      → p.symbol ≡ s
  unfolding lookup
  lookup-symbol s [] p k h = cc
  lookup-symbol s ((t, q) ∷ rest) p k h = elim (Bool-cases (str_eq s t)) [
    | inl same ↦
        let found : q ≡ p = ground arith in
        ap (λ (x : Position R). x.symbol) (sym found) ∙ k.0 ∙ sym ((eq_iff s t).0 same)
    | inr other ↦ lookup-symbol s rest p k.1 (ground arith)
  ]
