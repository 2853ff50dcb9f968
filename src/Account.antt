-- ===== src/Account.antt =====
-- futures_fund/account.py: the PAPER account. Amounts are of a type `R` with the operations of
-- Python's float as parameters (Arithmetic). pydantic's validation of the records that the code
-- builds is not modelled, and dictionaries keep their insertion order. Instants are UTC.
pub mod Reconcile
pub mod Settle
pub mod Keys
pub mod Fills
pub mod Exact
mod Samples
mod Tests
unfoldable pub use gpt_market_neutral_crypt.Prelude.{lookup, assign, pop}
use gpt_market_neutral_crypt.Prelude.{
  ℕ, zero, suc, Bool, true, false, ◌||◌, ◌&&◌, not, Option, none, some, List, [], ◌∷◌, ◌++◌, String,
  str_eq, if◌then◌else◌, Outcome, value, raised, ◌>>=◌, ◌>>◌, raise_if, ltb, ◌==◌, is_null,
}
use gpt_market_neutral_crypt.Time.{Instant}

-- `tiny` is the literal 1e-12, `billionth` 1e-9.
pub record Arithmetic (R : Type 0) : Type 0 where
  pub nought : R
  pub one : R
  pub tiny : R
  pub plus : R → R → R
  pub minus : R → R → R
  pub times : R → R → R
  pub over : R → R → R
  pub negated : R → R
  pub lt : R → R → Bool
  pub billionth : R
  pub is_finite : R → Bool

pub data Direction : Type 0 where
  long short : Direction

pub data Role : Type 0 where
  alpha hedge : Role

-- The fields that `_assign_thesis` sets.
pub record Thesis (R : Type 0) : Type 0 where
  pub thesis_cycle : Option ℕ
  pub thesis_book_sha256 : Option String
  pub expected_price_edge_frac : Option R
  pub edge_horizon_hours : Option ℕ
  pub edge_calibration_basis : String
  pub invalidation_condition : String

abbrev pub blank_thesis : {R : Type 0} → Thesis R
blank_thesis = record {
  thesis_cycle = none;
  thesis_book_sha256 = none;
  expected_price_edge_frac = none;
  edge_horizon_hours = none;
  edge_calibration_basis = "";
  invalidation_condition = "";
}

-- The cycle and the cadence that a leg was opened in.
pub record Opening : Type 0 where
  pub opened_cycle : Option ℕ
  pub opened_cadence : Option String

pub record Position (R : Type 0) : Type 0 where
  pub symbol : String
  pub direction : Direction
  pub qty : R
  pub entry_price : R
  pub opened_ts : Instant
  pub opening : Opening
  pub seat_role : Role
  pub thesis : Thesis R
  pub accrued_funding : R
  pub accrued_fees : R
  pub accrued_slippage : R
  pub realized_pnl : R

pub record ClosedLeg (R : Type 0) : Type 0 where
  pub symbol : String
  pub direction : Direction
  pub opening : Opening
  pub seat_role : Role
  pub thesis : Thesis R
  pub fees : R
  pub slippage : R
  pub realized_funding : R
  pub realized_pnl : R

pub record PaperAccount (R : Type 0) : Type 0 where
  pub cash : R
  pub positions : List (String × Position R)
  pub realized_pnl : R
  pub last_funding_ts : Option Instant
  pub funding_intervals_observed : List (String × ℕ)
  pub fees_paid : R
  pub slippage_paid : R
  pub funding_received : R
  pub funding_paid : R
  pub closed_legs : List (ClosedLeg R)

-- `_assign_thesis`: an empty thesis changes nothing.
unfoldable pub assign_thesis : {R : Type 0} → Option (Thesis R) → Position R → Position R
assign_thesis none p = p
assign_thesis (some t) p = record p { thesis = t }

-- The record of a position's lifecycle.
abbrev pub closed_leg : {R : Type 0} → Position R → ClosedLeg R
closed_leg p = record {
  symbol = p.symbol;
  direction = p.direction;
  opening = p.opening;
  seat_role = p.seat_role;
  thesis = p.thesis;
  fees = p.accrued_fees;
  slippage = p.accrued_slippage;
  realized_funding = p.accrued_funding;
  realized_pnl = p.realized_pnl;
}

-- `drain_closed_legs`
pub drain_closed_legs : {R : Type 0} → PaperAccount R → List (ClosedLeg R) × PaperAccount R
drain_closed_legs a = (a.closed_legs, record a { closed_legs = [] })

module _ {R : Type 0} (n : Arithmetic R) where
  abbrev pub absolute : R → R
  absolute x = if n.lt x n.nought then n.negated x else x

  -- `_signed_qty` of a position.
  abbrev pub signed_qty : Position R → R
  signed_qty p = elim p.direction [ long ↦ p.qty | short ↦ n.negated p.qty ]

  -- The price P&L of a quantity of a position at a mark.
  abbrev pub price_pnl : Position R → R → R → R
  price_pnl p qty mark = elim p.direction [
    | long ↦ n.times qty (n.minus mark p.entry_price)
    | short ↦ n.times qty (n.minus p.entry_price mark)
  ]

  -- `mark_to_market`
  pub mark_to_market : List (String × Position R) → List (String × R) → List (String × R)
  unfolding lookup
  mark_to_market [] marks = []
  mark_to_market ((sym, p) ∷ rest) marks =
      let later = mark_to_market rest marks in
      elim (lookup sym marks) [ none ↦ later | some mark ↦ (sym, price_pnl p p.qty mark) ∷ later ]

  total : R → List (String × R) → R
  total acc [] = acc
  total acc ((sym, x) ∷ rest) = total (n.plus acc x) rest

  -- `equity`
  pub equity : PaperAccount R → List (String × R) → R
  unfolding total
  equity a marks = n.plus a.cash (total n.nought (mark_to_market a.positions marks))

  -- P&L that is moved into cash.
  abbrev pub realize_on : PaperAccount R → R → PaperAccount R
  realize_on a x = record a { realized_pnl = n.plus a.realized_pnl x; cash = n.plus a.cash x }

  -- `_roll_seat_lifecycle`: the account and the position after it.
  pub roll_seat_lifecycle :
      PaperAccount R
      → Position R
      → R
      → Instant
      → Opening
      → Role
      → Option (Thesis R)
      → PaperAccount R × Position R
  unfolding assign_thesis
  roll_seat_lifecycle a p mark ts opening role thesis =
      let realized = price_pnl p p.qty mark in
      let booked = realize_on a realized in
      let leg = closed_leg (record p { realized_pnl = n.plus p.realized_pnl realized }) in
      (
        record booked { closed_legs = a.closed_legs ++ leg ∷ [] },
        assign_thesis thesis (record p {
          entry_price = mark;
          opened_ts = ts;
          opening = opening;
          seat_role = role;
          accrued_funding = n.nought;
          accrued_fees = n.nought;
          accrued_slippage = n.nought;
          realized_pnl = n.nought;
        }),
      )

  -- `_charge_frictions` on the account, and on the position that bears them.
  abbrev pub charge_account : R → R → PaperAccount R → PaperAccount R
  charge_account fee slip a = record a {
    cash = n.minus a.cash (n.plus fee slip);
    fees_paid = n.plus a.fees_paid fee;
    slippage_paid = n.plus a.slippage_paid slip;
  }

  abbrev pub charge_position : R → R → Position R → Position R
  charge_position fee slip p = record p {
    accrued_fees = n.plus p.accrued_fees fee;
    accrued_slippage = n.plus p.accrued_slippage slip;
  }
