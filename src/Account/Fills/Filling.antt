-- ===== src/Account/Fills/Filling.antt =====
-- The second loop of `apply_fills` in futures_fund/account.py: each symbol of the book is
-- reconciled to its target once.
pub mod Keys
pub mod Complete
mod Tests
use gpt_market_neutral_crypt.Prelude.{
  Bool, true, false, ◌||◌, ◌&&◌, not, Option, none, some, List, [], ◌∷◌, ◌++◌, String,
  if◌then◌else◌, Outcome, value, raised, ◌>>=◌, ◌>>◌, raise_if,
}
use gpt_market_neutral_crypt.Time.{Instant}
use gpt_market_neutral_crypt.Account.{
  Arithmetic, Direction, long, short, Role, alpha, Thesis, Opening, Position, PaperAccount, lookup,
  assign, assign_thesis, absolute, signed_qty, roll_seat_lifecycle, charge_account, charge_position,
}
use gpt_market_neutral_crypt.Account.Reconcile.{Order, new_position, reconcile_opposite}
use gpt_market_neutral_crypt.Account.Fills.{
  Trade, Book, Execution, or_default, same_role, same_direction, is_close, consolidate,
  with_dropped, check_targets,
}

-- What one symbol is reconciled to.
pub record Goal (R : Type 0) : Type 0 where
  pub sym : String
  pub mark : R
  pub target : R
  pub direction : Direction
  pub role : Role
  pub thesis : Option (Thesis R)
  pub ts : Instant
  pub opening : Opening

module _ {R : Type 0} (n : Arithmetic R) (frictions : String → R → R → Outcome (R × R)) where
  -- The direction of a target; a zero target keeps the held side.
  direction_of : R → Option (Position R) → Direction → Direction
  direction_of target existing desired =
      if n.lt n.nought target
      then long
      else if n.lt target n.nought
      then short
      else elim existing as (λ _. Direction) [ none ↦ desired | some p ↦ p.direction ]

  -- Old inventory that the fill has not closed stays in its old lifecycle.
  abbrev leftover : R → R → Bool
  leftover target desired =
      not (is_close n n.billionth target n.nought)
      && (is_close n n.billionth desired n.nought || n.lt (n.times desired target) n.nought)

  goal_of : Execution R → Book R → String → R → R → Option (Position R) → Goal R
  unfolding lookup direction_of
  goal_of x b sym notional mark existing =
      let desired_direction = if n.lt notional n.nought then short else long in
      let size = n.over (absolute n notional) mark in
      let desired =
        if n.lt notional n.nought then n.times (n.negated n.one) size else n.times n.one size in
      let target = elim x.targets as (λ _. R) [
        | none ↦ desired
        | some targets ↦ or_default desired (lookup sym targets)
      ] in
      let asked =
        or_default (elim existing as (λ _. Role) [ none ↦ alpha | some p ↦ p.seat_role ])
          (lookup sym b.roles) in
      record {
        sym = sym;
        mark = mark;
        target = target;
        direction = direction_of target existing desired_direction;
        role = elim existing as (λ _. Role) [
          | none ↦ asked
          | some p ↦ if leftover target desired then p.seat_role else asked
        ];
        thesis = elim existing as (λ _. Option (Thesis R)) [
          | none ↦ lookup sym b.theses
          | some p ↦ if leftover target desired then none else lookup sym b.theses
        ];
        ts = or_default x.default_ts (lookup sym x.times);
        opening = x.opening;
      }

  -- A symbol that is not held.
  pub open_new : Goal R → PaperAccount R → Outcome (PaperAccount R)
  unfolding assign assign_thesis
  open_new g a = if is_close n n.tiny g.target n.nought then value a else do
    let delta = n.minus g.target n.nought
    (fee, slip) ← frictions g.sym delta g.mark
    let opened =
        new_position n g.sym g.direction (absolute n delta) g.mark g.ts g.opening g.role fee slip
    value (record (charge_account n fee slip a) {
      positions = assign g.sym (assign_thesis g.thesis opened) a.positions;
    })

  -- The held side grows: the entry price is blended.
  pub increase : Goal R → R → R → R → Position R → PaperAccount R → PaperAccount R
  unfolding assign assign_thesis
  increase g delta fee slip p a =
      let fill = absolute n delta in
      let total = n.plus p.qty fill in
      let blended = n.over (n.plus (n.times p.entry_price p.qty) (n.times g.mark fill)) total in
      let grown = record (charge_position n fee slip p) {
        seat_role = g.role;
        entry_price = blended;
        qty = total;
      } in
      record (charge_account n fee slip a) {
        positions = assign g.sym (assign_thesis g.thesis grown) a.positions;
      }

  abbrev order_of : Goal R → R → R → Role → Option (Thesis R) → Order R
  order_of g fee slip role thesis = record {
    sym = g.sym;
    direction = g.direction;
    target_signed_qty = g.target;
    mark = g.mark;
    fee = fee;
    slip = slip;
    ts = g.ts;
    opening = g.opening;
    role = role;
    thesis = thesis;
  }

  -- The lifecycle of the position under the symbol is rolled, where there is one.
  pub roll_held : Goal R → Option (Position R) → PaperAccount R → PaperAccount R
  unfolding assign
  roll_held g none a = a
  roll_held g (some p) a =
      let rolled = roll_seat_lifecycle n a p g.mark g.ts g.opening g.role g.thesis in
      record rolled.0 { positions = assign g.sym rolled.1 a.positions }

  -- A fill against the held side. A reduced slice is closed under its old role, and what is left is rolled.
  pub reduce : Goal R → Bool → R → R → Position R → PaperAccount R → PaperAccount R
  unfolding lookup roll_held
  reduce g role_reduction fee slip p a =
      let plain = reconcile_opposite n (order_of g fee slip g.role g.thesis) p a in
      let sliced = reconcile_opposite n (order_of g fee slip p.seat_role none) p a in
      if role_reduction then roll_held g (lookup g.sym sliced.positions) sliced else plain

  -- A position that is at its target takes the role and the thesis.
  pub keep : Goal R → Position R → PaperAccount R → PaperAccount R
  unfolding assign assign_thesis
  keep g p a = record a {
    positions = assign g.sym (assign_thesis g.thesis (record p { seat_role = g.role })) a.positions;
  }

  -- The rest of the round for a held position, after a role change that is no reduction.
  pub fill_held : Goal R → Bool → Position R → PaperAccount R → Outcome (PaperAccount R)
  unfolding keep increase reduce
  fill_held g role_reduction p a =
      let current = signed_qty n p in
      let delta = n.minus g.target current in
      if is_close n n.tiny g.target current then value (keep g p a) else do
        (fee, slip) ← frictions g.sym delta g.mark
        value (
            if n.lt (n.times g.target current) n.nought
              || n.lt (absolute n g.target) (absolute n current)
            then reduce g role_reduction fee slip p a
            else increase g delta fee slip p a)

  pub change_held : Goal R → Position R → PaperAccount R → Outcome (PaperAccount R)
  unfolding fill_held assign
  change_held g p a =
      let role_change =
        same_direction p.direction g.direction && not (same_role p.seat_role g.role) in
      let reduction = role_change && n.lt (absolute n g.target) (absolute n (signed_qty n p)) in
      let rolled = roll_seat_lifecycle n a p g.mark g.ts g.opening g.role g.thesis in
      if role_change && not reduction
      then fill_held g false rolled.1
          (record rolled.0 { positions = assign g.sym rolled.1 a.positions })
      else fill_held g reduction p a

  -- One round of the loop. A mark that is no positive finite number stops a symbol that is held or has a
  -- target, and passes over any other.
  pub fill_one :
      Execution R
      → Book R
      → String
      → R
      → Option R
      → Option (Position R)
      → PaperAccount R
      → Outcome (PaperAccount R)
  unfolding goal_of open_new change_held
  fill_one x b sym notional (some mark) existing a =
      let usable = n.is_finite mark && n.lt n.nought mark in
      let goal = goal_of x b sym notional mark existing in
      let filled = elim existing as (λ _. Outcome (PaperAccount R)) [
        | none ↦ open_new goal a
        | some p ↦ change_held goal p a
      ] in
      let wanted = elim existing as (λ _. Bool) [
        | none ↦ n.lt n.billionth (absolute n notional)
        | some p ↦ true
      ] in
      if usable then filled else if wanted then raised else value a
  fill_one x b sym notional none existing a =
      let wanted = elim existing as (λ _. Bool) [
        | none ↦ n.lt n.billionth (absolute n notional)
        | some p ↦ true
      ] in
      if wanted then raised else value a

  pub fill_all :
      Execution R → Book R → List (String × R) → PaperAccount R → Outcome (PaperAccount R)
  unfolding fill_one lookup
  fill_all x b [] a = value a
  fill_all x b ((sym, notional) ∷ net) a =
      fill_one x b sym notional (lookup sym x.marks) (lookup sym a.positions) a >>= λ a'.
      fill_all x b net a'

  -- `apply_fills`
  pub apply_fills : List (Trade R) → Execution R → PaperAccount R → Outcome (PaperAccount R)
  unfolding fill_all
  apply_fills trades x a = do
    named ← consolidate n trades (record { net = []; roles = []; theses = [] })
    let book = record named { net = named.net ++ with_dropped n named.net a.positions }
    check_targets n x book a.positions x.targets
    fill_all x book book.net a
