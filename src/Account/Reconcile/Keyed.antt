-- ===== src/Account/Reconcile/Keyed.antt =====
-- `_reconcile_opposite` of futures_fund/account.py keeps every position under its symbol.
use gpt_market_neutral_crypt.Prelude.{◌≡◌, inl, inr, Bool-cases, ◌∙◌, ◌||◌}
use gpt_market_neutral_crypt.Account.{Arithmetic, Position, PaperAccount, absolute}
use gpt_market_neutral_crypt.Account.Keys.{
  IsKeyed, assign_thesis-symbol, assign-IsKeyed, pop-IsKeyed,
}
use gpt_market_neutral_crypt.Account.Reconcile.{
  Order, closed_qty, old_fee, old_slip, flipped, open_rest, is_nonzero, reconcile_opposite,
}

module _ {R : Type 0} (n : Arithmetic R) where
  flipped-symbol : (o : Order R) (fee slip : R) → (flipped n o fee slip).symbol ≡ o.sym
  unfolding flipped
  flipped-symbol o fee slip = assign_thesis-symbol o.thesis _

  open_rest-IsKeyed :
      (o : Order R) (fee slip : R) (a : PaperAccount R)
      → IsKeyed a.positions
      → IsKeyed (open_rest n o fee slip a).positions
  unfolding open_rest
  open_rest-IsKeyed o fee slip a k =
      elim (Bool-cases (n.lt n.tiny (absolute n o.target_signed_qty))) [
        | inl t ↦
            rw t (
              assign-IsKeyed o.sym (flipped n o fee slip) a.positions (flipped-symbol o fee slip) k)
        | inr f ↦ rw f (elim (Bool-cases (is_nonzero n fee || is_nonzero n slip)) [
          | inl t ↦ rw t k
          | inr g ↦ rw g k
        ])
      ]

  pub reconcile_opposite-IsKeyed :
      (o : Order R) (p : Position R) (a : PaperAccount R)
      → p.symbol ≡ o.sym
      → IsKeyed a.positions
      → IsKeyed (reconcile_opposite n o p a).positions
  unfolding reconcile_opposite
  reconcile_opposite-IsKeyed o p a s k =
      elim (Bool-cases (n.lt n.tiny (n.minus p.qty (closed_qty n o p)))) [
        | inl t ↦ rw t (assign-IsKeyed o.sym _ a.positions (assign_thesis-symbol o.thesis _ ∙ s) k)
        | inr f ↦ rw f (
            open_rest-IsKeyed o (n.minus o.fee (old_fee n o p)) (n.minus o.slip (old_slip n o p)) _
              (pop-IsKeyed o.sym a.positions k))
      ]
