-- ===== src/Account/Reconcile.antt =====
-- `_reconcile_opposite` of futures_fund/account.py: an order against the held side reduces the
-- position, closes it, or flips it.
pub mod Frictions
pub mod Keyed
use gpt_market_neutral_crypt.Prelude.{
  Bool, true, false, ◌||◌, not, Option, List, [], ◌∷◌, ◌++◌, String, if◌then◌else◌,
}
use gpt_market_neutral_crypt.Time.{Instant}
use gpt_market_neutral_crypt.Account.{
  Arithmetic, Direction, Role, Thesis, Opening, Position, PaperAccount, assign, pop, assign_thesis,
  closed_leg, blank_thesis, absolute, signed_qty, price_pnl, realize_on, charge_account,
  charge_position,
}

-- The arguments of a call, with the frictions that `apply_fills` has computed.
pub record Order (R : Type 0) : Type 0 where
  pub sym : String
  pub direction : Direction
  pub target_signed_qty : R
  pub mark : R
  pub fee : R
  pub slip : R
  pub ts : Instant
  pub opening : Opening
  pub role : Role
  pub thesis : Option (Thesis R)

module _ {R : Type 0} (n : Arithmetic R) where
  -- `min(abs(delta_signed), existing.qty)`
  abbrev pub closed_qty : Order R → Position R → R
  closed_qty o p =
      let delta = absolute n (n.minus o.target_signed_qty (signed_qty n p)) in
      if n.lt p.qty delta then p.qty else delta

  -- The quantity that is opened on the other side.
  abbrev pub new_open_qty : Order R → Position R → R
  new_open_qty o p =
      if n.lt (n.times o.target_signed_qty (signed_qty n p)) n.nought
      then absolute n o.target_signed_qty
      else n.nought

  -- The share of the frictions that the old leg bears.
  abbrev pub old_share : Order R → Position R → R
  old_share o p =
      let traded = n.plus (closed_qty o p) (new_open_qty o p) in
      if n.lt n.nought traded then n.over (closed_qty o p) traded else n.one

  abbrev pub old_fee : Order R → Position R → R
  old_fee o p = n.times o.fee (old_share o p)

  abbrev pub old_slip : Order R → Position R → R
  old_slip o p = n.times o.slip (old_share o p)

  -- Truth of a float.
  abbrev is_nonzero : R → Bool
  is_nonzero x = n.lt x n.nought || n.lt n.nought x

  -- `Position(…)` with the defaults of the fields that are not given.
  abbrev pub new_position :
      String → Direction → R → R → Instant → Opening → Role → R → R → Position R
  new_position sym direction qty mark ts opening role fees slippage = record {
    symbol = sym;
    direction = direction;
    qty = qty;
    entry_price = mark;
    opened_ts = ts;
    opening = opening;
    seat_role = role;
    thesis = blank_thesis;
    accrued_funding = n.nought;
    accrued_fees = fees;
    accrued_slippage = slippage;
    realized_pnl = n.nought;
  }

  -- The position that a flip opens, with its share of the frictions.
  pub flipped : Order R → R → R → Position R
  unfolding assign_thesis
  flipped o fee slip = charge_position n fee slip (
      assign_thesis o.thesis (
        new_position o.sym o.direction (absolute n o.target_signed_qty) o.mark o.ts o.opening o.role
          n.nought n.nought))

  -- After a full close: the rest of the target is opened on the other side, or what is left of
  -- the frictions is charged to the account alone.
  pub open_rest : Order R → R → R → PaperAccount R → PaperAccount R
  unfolding assign flipped
  open_rest o new_fee new_slip a =
      if n.lt n.tiny (absolute n o.target_signed_qty)
      then record (charge_account n new_fee new_slip a) {
        positions = assign o.sym (flipped o new_fee new_slip) a.positions;
      }
      else if is_nonzero new_fee || is_nonzero new_slip
      then charge_account n new_fee new_slip a
      else a

  -- `_reconcile_opposite` on the account and the position that it holds under the symbol.
  unfoldable pub reconcile_opposite : Order R → Position R → PaperAccount R → PaperAccount R
  unfolding assign assign_thesis pop open_rest
  reconcile_opposite o p a =
      let closed = closed_qty o p in
      let realized = price_pnl n p closed o.mark in
      let charged = realize_on n (charge_account n (old_fee o p) (old_slip o p) a) realized in
      let borne = charge_position n (old_fee o p) (old_slip o p) p in
      let after = record borne { realized_pnl = n.plus p.realized_pnl realized } in
      let residual = n.minus p.qty closed in
      if n.lt n.tiny residual
      then record charged {
        positions =
            assign o.sym
              (assign_thesis o.thesis (record after { qty = residual; seat_role = o.role }))
              a.positions;
      }
      else open_rest o (n.minus o.fee (old_fee o p)) (n.minus o.slip (old_slip o p))
          (record charged {
            closed_legs = a.closed_legs ++ closed_leg after ∷ [];
            positions = pop o.sym a.positions;
          })
