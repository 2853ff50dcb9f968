-- ===== src/Account/Fills.antt =====
-- `apply_fills` of futures_fund/account.py. The frictions of a fill are a parameter: the fee and
-- the slippage (`trade_fee` of futures_fund/costs.py on the quote value that is crossed, and
-- `estimate_slippage` of futures_fund/slippage.py) by symbol, signed quantity and mark, or a raise.
-- A mark that `float` does not read is like a missing one. What a raise leaves of the account in
-- memory is not modelled.
pub mod Filling
pub mod Proved
use gpt_market_neutral_crypt.Prelude.{
  Bool, true, false, ◌||◌, ◌&&◌, not, Option, none, some, List, [], ◌∷◌, ◌++◌, String,
  if◌then◌else◌, Outcome, value, raised, ◌>>=◌, ◌>>◌, raise_if,
}
use gpt_market_neutral_crypt.Time.{Instant}
use gpt_market_neutral_crypt.Account.{
  Arithmetic, Direction, long, short, Role, alpha, hedge, Thesis, Opening, Position, PaperAccount,
  lookup, assign, assign_thesis, absolute, signed_qty, roll_seat_lifecycle, charge_account,
  charge_position,
}
use gpt_market_neutral_crypt.Account.Reconcile.{Order, new_position, reconcile_opposite}

-- A leg of the book. `role` is `none` if the text is neither role, `alpha` if there is none; `thesis` is `none` if no field of a
-- thesis is there.
pub record Trade (R : Type 0) : Type 0 where
  pub symbol : String
  pub direction : Direction
  pub target_notional : R
  pub role : Option Role
  pub thesis : Option (Thesis R)

-- The consolidated book: the net signed notional of each symbol, the roles and the theses.
pub record Book (R : Type 0) : Type 0 where
  pub net : List (String × R)
  pub roles : List (String × Role)
  pub theses : List (String × Thesis R)

-- The keyword arguments.
pub record Execution (R : Type 0) : Type 0 where
  pub marks : List (String × R)
  pub default_ts : Instant
  pub opening : Opening
  pub targets : Option (List (String × R))
  pub times : List (String × Instant)
  pub completed : List (String × Bool)

abbrev pub or_default {ℓ} : {A : Type ℓ} → A → Option A → A
or_default d none = d
or_default d (some a) = a

abbrev pub same_role : Role → Role → Bool
same_role alpha alpha = true
same_role hedge hedge = true
same_role _ _ = false

abbrev pub same_direction : Direction → Direction → Bool
same_direction long long = true
same_direction short short = true
same_direction _ _ = false

-- The symbol takes the leg's role and thesis: any alpha leg wins, and so does the first leg.
takes_role : Role → Option Role → Bool
takes_role alpha before = true
takes_role hedge none = true
takes_role hedge (some _) = false

keep_thesis :
    {R : Type 0} → String → Option (Thesis R) → List (String × Thesis R) → List (String × Thesis R)
unfolding assign
keep_thesis sym none theses = theses
keep_thesis sym (some t) theses = assign sym t theses

module _ {R : Type 0} (n : Arithmetic R) where
  -- `math.isclose(a, b, rel_tol=rel, abs_tol=1e-12)` on finite amounts.
  pub is_close : R → R → R → Bool
  is_close rel a b =
      let larger = λ (x : R) (y : R). if n.lt x y then y else x in
      not (
        n.lt (larger (n.times rel (larger (absolute n a) (absolute n b))) n.tiny)
          (absolute n (n.minus a b)))

  consolidate_one : Trade R → Role → Book R → Book R
  unfolding lookup assign keep_thesis takes_role
  consolidate_one t role b =
      let size = absolute n t.target_notional in
      let signed = elim t.direction as (λ _. R) [
        | long ↦ n.times n.one size
        | short ↦ n.times (n.negated n.one) size
      ] in
      let netted = record b {
        net = assign t.symbol (n.plus (or_default n.nought (lookup t.symbol b.net)) signed) b.net;
      } in
      if takes_role role (lookup t.symbol b.roles)
      then record netted {
        roles = assign t.symbol role b.roles;
        theses = keep_thesis t.symbol t.thesis b.theses;
      }
      else netted

  -- The legs, consolidated by symbol.
  pub consolidate : List (Trade R) → Book R → Outcome (Book R)
  unfolding consolidate_one
  consolidate [] b = value b
  consolidate (t ∷ trades) b = elim t.role [
    | none ↦ raised
    | some role ↦ consolidate trades (consolidate_one t role b)
  ]

  -- A held symbol that is absent from the book gets the target zero.
  pub with_dropped : List (String × R) → List (String × Position R) → List (String × R)
  unfolding lookup
  with_dropped net [] = []
  with_dropped net ((sym, p) ∷ rest) =
      let later = with_dropped net rest in
      elim (lookup sym net) [ none ↦ (sym, n.nought) ∷ later | some _ ↦ later ]

  -- The order changes the lifecycle of the position: it drops, reduces or flips it, or changes its role.
  abbrev pub lifecycle_trade : Execution R → Book R → String → R → Position R → R → Bool
  lifecycle_trade x b sym notional p mark =
      let desired = n.over notional mark in
      let current = signed_qty n p in
      not (is_close n.billionth desired current)
      && (not (n.lt n.nought (n.times desired current))
          || n.lt (absolute n desired) (n.minus (absolute n current) n.tiny)
          || not (same_role (or_default p.seat_role (lookup sym b.roles)) p.seat_role))

  abbrev unproved : Execution R → Book R → String → R → Position R → R → Bool
  unproved x b sym notional p mark =
      lifecycle_trade x b sym notional p mark && not (or_default false (lookup sym x.completed))

  check_one :
      Execution R → Book R → String → R → Option (Position R) → Option R → Outcome (Unit {0})
  unfolding is_close lookup
  check_one x b sym notional (some p) (some mark) =
      raise_if (n.lt n.nought mark && unproved x b sym notional p mark)
  check_one x b sym notional _ _ = value tt

  check_lifecycles :
      Execution R → Book R → List (String × Position R) → List (String × R) → Outcome (Unit {0})
  unfolding check_one lookup
  check_lifecycles x b positions [] = value tt
  check_lifecycles x b positions ((sym, notional) ∷ net) =
      check_one x b sym notional (lookup sym positions) (lookup sym x.marks)
      >> check_lifecycles x b positions net

  covered : List (String × R) → List (String × R) → Bool
  unfolding lookup
  covered [] ys = true
  covered ((sym, _) ∷ xs) ys =
      (elim (lookup sym ys) as (λ _. Bool) [ none ↦ false | some _ ↦ true ]) && covered xs ys

  all_finite : List (String × R) → Bool
  all_finite [] = true
  all_finite ((sym, q) ∷ rest) = n.is_finite q && all_finite rest

  pub check_targets :
      Execution R
      → Book R
      → List (String × Position R)
      → Option (List (String × R))
      → Outcome (Unit {0})
  unfolding covered all_finite check_lifecycles
  check_targets x b positions none = value tt
  check_targets x b positions (some targets) = do
    raise_if (not (covered targets b.net && covered b.net targets))
    raise_if (not (all_finite targets))
    check_lifecycles x b positions b.net
