-- ===== src/Account/Reconcile/Frictions.antt =====
-- Fees and slippage of `_reconcile_opposite` in futures_fund/account.py: they are split between the
-- old leg and the new one, and charged to the account once.
use gpt_market_neutral_crypt.Prelude.{
  ◌≡◌, refl, ◌⊎◌, inl, inr, false, ap, ◌∙◌, Bool-cases, ◌||◌, arith,
}
use gpt_market_neutral_crypt.Account.{Arithmetic, Position, PaperAccount, signed_qty}
use gpt_market_neutral_crypt.Account.Exact.{Exact, plus_parts}
use gpt_market_neutral_crypt.Account.Reconcile.{
  Order, closed_qty, old_share, old_fee, old_slip, open_rest, is_nonzero, reconcile_opposite,
}

module _ {R : Type 0} (n : Arithmetic R) (e : Exact n) where
  -- With no quantity on the other side the old leg bears all.
  old_share-no_flip :
      (o : Order R) (p : Position R)
      → n.lt (n.times o.target_signed_qty (signed_qty n p)) n.nought ≡ false
      → old_share n o p ≡ n.one
  old_share-no_flip o p h = elim (Bool-cases (n.lt n.nought (closed_qty n o p))) [
    | inl t ↦ rw (h, e.plus_nought (closed_qty n o p), t) (e.over_self (closed_qty n o p) t)
    | inr f ↦ rw (h, e.plus_nought (closed_qty n o p), f) refl
  ]

  is_nonzero-nought : (x : R) → is_nonzero n x ≡ false → x ≡ n.nought
  is_nonzero-nought x h = e.lt_total x (ground arith) (ground arith)

  -- What `open_rest` adds to the totals.
  open_rest-frictions :
      (o : Order R) (fee slip : R) (a : PaperAccount R)
      → let a' = open_rest n o fee slip a in
        (a'.fees_paid ≡ n.plus a.fees_paid fee) × (a'.slippage_paid ≡ n.plus a.slippage_paid slip)
  unfolding open_rest
  open_rest-frictions o fee slip a = elim (Bool-cases (is_nonzero n fee || is_nonzero n slip)) [
    | inl t ↦ ground arith
    | inr f ↦
        let no_fee = is_nonzero-nought fee (ground arith) in
        let no_slip = is_nonzero-nought slip (ground arith) in
        ground (arith, no_fee, no_slip, e.plus_nought a.fees_paid, e.plus_nought a.slippage_paid)
  ]

  -- Where amounts are exact, an order against the held side adds its whole fee and slippage to the account's totals, whether it
  -- reduces the position, closes it or flips it, if a flip closes all that is held.
  pub reconcile_opposite-frictions :
      (o : Order R) (p : Position R) (a : PaperAccount R)
      → (n.lt (n.times o.target_signed_qty (signed_qty n p)) n.nought ≡ false)
        ⊎ (n.lt n.tiny (n.minus p.qty (closed_qty n o p)) ≡ false)
      → let a' = reconcile_opposite n o p a in
        (a'.fees_paid ≡ n.plus a.fees_paid o.fee)
        × (a'.slippage_paid ≡ n.plus a.slippage_paid o.slip)
  unfolding reconcile_opposite
  reconcile_opposite-frictions o p a h =
      elim (Bool-cases (n.lt n.tiny (n.minus p.qty (closed_qty n o p)))) [
        | inl t ↦
            let share = old_share-no_flip o p (ground arith) in
            rw t (
              ap (λ (x : R). n.plus a.fees_paid (n.times o.fee x)) share
                  ∙ ap (n.plus a.fees_paid) (e.times_one o.fee),
              ap (λ (x : R). n.plus a.slippage_paid (n.times o.slip x)) share
                  ∙ ap (n.plus a.slippage_paid) (e.times_one o.slip),
            )
        | inr f ↦
            let rest =
              open_rest-frictions o (n.minus o.fee (old_fee n o p))
                (n.minus o.slip (old_slip n o p)) _ in
            rw f (
              rest.0 ∙ plus_parts n e a.fees_paid o.fee (old_fee n o p),
              rest.1 ∙ plus_parts n e a.slippage_paid o.slip (old_slip n o p),
            )
      ]
