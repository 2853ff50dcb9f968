-- ===== src/Account/Exact.antt =====
-- What futures_fund/account.py conserves where the arithmetic of amounts is exact. Binary floating
-- point rounds, so there the equations hold up to rounding.
use gpt_market_neutral_crypt.Prelude.{◌≡◌, refl, true, false, Option, none, some, sym, ap, ◌∙◌}
use gpt_market_neutral_crypt.Time.{Instant}
use gpt_market_neutral_crypt.Account.{
  Arithmetic, Direction, long, short, Role, Thesis, Opening, Position, PaperAccount, assign_thesis,
  price_pnl, roll_seat_lifecycle,
}

-- The laws of exact amounts that the theorems use.
pub record Exact {R : Type 0} (n : Arithmetic R) : Type 0 where
  pub plus_assoc : (x y z : R) → n.plus (n.plus x y) z ≡ n.plus x (n.plus y z)
  pub plus_comm : (x y : R) → n.plus x y ≡ n.plus y x
  pub plus_nought : (x : R) → n.plus x n.nought ≡ x
  pub plus_negated : (x : R) → n.plus x (n.negated x) ≡ n.nought
  pub negated_plus : (x y : R) → n.negated (n.plus x y) ≡ n.plus (n.negated x) (n.negated y)
  pub minus_lem : (x y : R) → n.minus x y ≡ n.plus x (n.negated y)
  pub times_nought : (x : R) → n.times x n.nought ≡ n.nought
  pub times_one : (x : R) → n.times x n.one ≡ x
  pub over_self : (x : R) → n.lt n.nought x ≡ true → n.over x x ≡ n.one
  pub lt_total : (x : R) → n.lt x n.nought ≡ false → n.lt n.nought x ≡ false → x ≡ n.nought

module _ {R : Type 0} (n : Arithmetic R) (e : Exact n) where
  -- The middle two of four amounts change places.
  pub plus_swap :
      (a b c d : R) → n.plus (n.plus a b) (n.plus c d) ≡ n.plus (n.plus a c) (n.plus b d)
  plus_swap a b c d =
      e.plus_assoc a b (n.plus c d)
      ∙ ap (n.plus a) (
          sym (e.plus_assoc b c d)
          ∙ ap (λ (x : R). n.plus x d) (e.plus_comm b c)
          ∙ e.plus_assoc c b d)
      ∙ sym (e.plus_assoc a c (n.plus b d))

  pub minus_self : (x : R) → n.minus x x ≡ n.nought
  minus_self x = e.minus_lem x x ∙ e.plus_negated x

  -- An amount in two parts.
  pub plus_parts : (a x part : R) → n.plus (n.plus a part) (n.minus x part) ≡ n.plus a x
  plus_parts a x part =
      ap (n.plus (n.plus a part)) (e.minus_lem x part)
      ∙ plus_swap a part x (n.negated part)
      ∙ ap (n.plus (n.plus a x)) (e.plus_negated part)
      ∙ e.plus_nought (n.plus a x)

  no_pnl :
      (d : Direction) (q mark : R)
      → (elim d as (λ _. R) [
        | long ↦ n.times q (n.minus mark mark)
        | short ↦ n.times q (n.minus mark mark)
      ])
        ≡ n.nought
  no_pnl long q mark = ap (n.times q) (minus_self mark) ∙ e.times_nought q
  no_pnl short q mark = ap (n.times q) (minus_self mark) ∙ e.times_nought q

  -- Where amounts are exact, a change of a position's role keeps its direction and quantity, and leaves cash plus the
  -- position's unrealized P&L at the mark as they were.
  pub roll_seat_lifecycle-equity :
      (a : PaperAccount R) (p : Position R) (mark : R) (ts : Instant) (opening : Opening)
      (role : Role) (thesis : Option (Thesis R))
      → let (a', p') = roll_seat_lifecycle n a p mark ts opening role thesis in
        (p'.direction ≡ p.direction)
        × (p'.qty ≡ p.qty)
        × (n.plus a'.cash (price_pnl n p' p'.qty mark) ≡ n.plus a.cash (price_pnl n p p.qty mark))
  unfolding roll_seat_lifecycle assign_thesis
  roll_seat_lifecycle-equity a p mark ts opening role none =
      (refl, refl, ap (n.plus _) (no_pnl p.direction p.qty mark) ∙ e.plus_nought _)
  roll_seat_lifecycle-equity a p mark ts opening role (some t) =
      (refl, refl, ap (n.plus _) (no_pnl p.direction p.qty mark) ∙ e.plus_nought _)
