-- ===== src/Account/Settle/Cash.antt =====
-- The cash of futures_fund/account.py over a funding settlement, where amounts are exact.
use gpt_market_neutral_crypt.Prelude.{
  ℕ, ◌≡◌, refl, inl, inr, List, [], ◌∷◌, String, sym, ap, ◌∙◌, Bool-cases, value, >>=-eq-value,
  value-injective, raise_if, not, ◌||◌, ltb,
}
use gpt_market_neutral_crypt.Time.{Instant}
use gpt_market_neutral_crypt.Account.{Arithmetic, PaperAccount}
use gpt_market_neutral_crypt.Account.Settle.{
  Staged, settle_one, settle_all, sum_from, apply_staged, stage, held_without_clock, missing,
  off_clock, settle_funding,
}
use gpt_market_neutral_crypt.Account.Exact.{Exact, plus_swap}

module _ {R : Type 0} (n : Arithmetic R) (e : Exact n) where
  -- Cash without what was received, and with what was paid.
  abbrev pub net : PaperAccount R → R
  net a = n.plus (n.plus a.cash a.funding_paid) (n.negated a.funding_received)

  net_paid :
      (c x p r : R)
      → n.plus (n.plus (n.plus c x) (n.plus p (n.negated x))) r ≡ n.plus (n.plus c p) r
  net_paid c x p r =
      ap (λ (y : R). n.plus y r)
        (plus_swap n e c x p (n.negated x)
          ∙ ap (n.plus (n.plus c p)) (e.plus_negated x)
          ∙ e.plus_nought (n.plus c p))

  net_received :
      (c x p r : R)
      → n.plus (n.plus (n.plus c x) p) (n.negated (n.plus r x)) ≡ n.plus (n.plus c p) (n.negated r)
  net_received c x p r =
      ap (n.plus (n.plus (n.plus c x) p)) (e.negated_plus r x)
      ∙ ap (λ (y : R). n.plus y (n.plus (n.negated r) (n.negated x)))
          (e.plus_assoc c x p ∙ ap (n.plus c) (e.plus_comm x p) ∙ sym (e.plus_assoc c p x))
      ∙ plus_swap n e (n.plus c p) x (n.negated r) (n.negated x)
      ∙ ap (n.plus (n.plus (n.plus c p) (n.negated r))) (e.plus_negated x)
      ∙ e.plus_nought (n.plus (n.plus c p) (n.negated r))

  settle_one-net : (sym : String) (x : R) (a : PaperAccount R) → net (settle_one n sym x a) ≡ net a
  unfolding settle_one
  settle_one-net sym x a = elim (Bool-cases (n.lt x n.nought)) [
    | inl t ↦ rw t (net_paid a.cash x a.funding_paid (n.negated a.funding_received))
    | inr f ↦ rw f (net_received a.cash x a.funding_paid a.funding_received)
  ]

  settle_all-net : (staged : Staged R) (a : PaperAccount R) → net (settle_all n staged a) ≡ net a
  unfolding settle_all
  settle_all-net [] a = refl
  settle_all-net ((sym, x) ∷ rest) a =
      settle_all-net rest (settle_one n sym x a) ∙ settle_one-net sym x a

  apply_staged-net :
      (end : Instant) (staged : Staged R) (a a' : PaperAccount R)
      → apply_staged n end staged a ≡ value a'
      → net a' ≡ net a
  unfolding apply_staged
  apply_staged-net end staged a a' h =
      let new_cash = n.plus a.cash (sum_from n n.nought staged) in
      let (u, ok, last) =
        >>=-eq-value (raise_if (not (n.is_finite new_cash) || n.lt new_cash n.nought)) _ h in
      ap net (sym (value-injective last)) ∙ settle_all-net staged a

  -- Where amounts are exact, a funding settlement changes the cash by what it adds to the total received, less what it
  -- adds to the total paid.
  pub settle_funding-net :
      (start end : Instant) (rates : List (String × R)) (intervals : List (String × ℕ))
      (marks : List (String × R)) (a a' : PaperAccount R)
      → settle_funding n start end rates intervals marks a ≡ value a'
      → net a' ≡ net a
  unfolding settle_funding
  settle_funding-net start end rates intervals marks a a' h =
      let (_, _, h1) = >>=-eq-value (raise_if (held_without_clock a)) _ h in
      let (_, _, h2) = >>=-eq-value (raise_if (ltb end start)) _ h1 in
      let (_, _, h3) = >>=-eq-value (raise_if (off_clock a.last_funding_ts start)) _ h2 in
      let (_, _, h4) =
        >>=-eq-value
          (raise_if (
            missing a.positions rates
            || missing a.positions intervals
            || missing a.positions marks))
          _ h3 in
      let (staged, _, h5) =
        >>=-eq-value (stage n start end rates intervals marks a.positions) _ h4 in
      apply_staged-net end staged a a' h5
