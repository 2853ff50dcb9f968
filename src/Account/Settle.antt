-- ===== src/Account/Settle.antt =====
-- `settle_funding` and `settle_funding_events` of futures_fund/account.py, with `realized_funding`
-- of futures_fund/funding_intervals.py. A funding rate, interval or mark that is no number
-- (`float` raises) is not modelled; an interval is the number that the caller gives.
pub mod Clock
pub mod Cash
pub mod Tests
use gpt_market_neutral_crypt.Prelude.{
  ℕ, zero, suc, Bool, true, false, ◌||◌, ◌&&◌, not, Option, none, some, List, [], ◌∷◌, ◌++◌, String,
  if◌then◌else◌, Outcome, value, raised, ◌>>=◌, ◌>>◌, raise_if, ltb, leb, ◌==◌, is_null, map,
}
use gpt_market_neutral_crypt.Time.{Instant}
use gpt_market_neutral_crypt.Funding.{count_funding_events}
use gpt_market_neutral_crypt.Account.{
  Arithmetic, Direction, long, short, Position, PaperAccount, lookup, assign,
}

-- The settlements staged for the positions, in the order in which they are applied.
abbrev pub Staged : Type 0 → Type 0
Staged R = List (String × R)

abbrev is_interval : ℕ → Bool
is_interval i = (i == 1) || (i == 2) || (i == 4) || (i == 8)

-- Some held symbol is missing.
missing {ℓ} : {R : Type 0} {A : Type ℓ} → List (String × Position R) → List (String × A) → Bool
unfolding lookup
missing [] supplied = false
missing ((sym, p) ∷ rest) supplied =
    let later = missing rest supplied in elim (lookup sym supplied) [ none ↦ true | some _ ↦ later ]

-- `start != clock`
abbrev off_clock : Option Instant → Instant → Bool
off_clock none start = false
off_clock (some clock) start = not (start == clock)

-- `self.last_funding_ts or end`
abbrev pub clock_or : Instant → Option Instant → Instant
clock_or end none = end
clock_or end (some clock) = clock

abbrev held_without_clock : {R : Type 0} → PaperAccount R → Bool
held_without_clock a = elim a.positions [
  | [] ↦ false
  | _ ↦ elim a.last_funding_ts [ none ↦ true | some _ ↦ false ]
]

-- An event of `settle_funding_events`.
pub record FundingEvent (R : Type 0) : Type 0 where
  pub timestamp : Instant
  pub rate : R
  pub mark : R

module _ {R : Type 0} (n : Arithmetic R) where
  -- `realized_funding(0.0, mark, qty, rate, direction)`
  pub realized_funding : R → R → R → Direction → R
  realized_funding mark qty rate long = n.times (n.times (n.times (n.negated n.one) mark) qty) rate
  realized_funding mark qty rate short =
      n.times (n.times (n.times (n.negated (n.negated n.one)) mark) qty) rate

  -- The number of events as a float.
  of_count : ℕ → R
  of_count zero = n.nought
  of_count (suc k) = n.plus (of_count k) n.one

  abbrev bad_price : R → R → Bool
  bad_price rate mark = not (n.is_finite mark) || not (n.lt n.nought mark) || not (n.is_finite rate)

  stage_one : Instant → Instant → Position R → Option R → Option ℕ → Option R → Outcome (Option R)
  unfolding realized_funding of_count
  stage_one start end p (some rate) (some interval) (some mark) = do
    raise_if (bad_price rate mark || not (is_interval interval))
    let count = count_funding_events start end interval
    value (
        if count == 0
        then none
        else some (n.times (realized_funding mark p.qty rate p.direction) (of_count count)))
  stage_one start end p _ _ _ = raised

  stage :
      Instant
      → Instant
      → List (String × R)
      → List (String × ℕ)
      → List (String × R)
      → List (String × Position R)
      → Outcome (Staged R)
  unfolding stage_one lookup
  stage start end rates intervals marks [] = value []
  stage start end rates intervals marks ((sym, p) ∷ rest) = do
    one ← stage_one start end p (lookup sym rates) (lookup sym intervals) (lookup sym marks)
    later ← stage start end rates intervals marks rest
    value (elim one [ none ↦ later | some settled ↦ (sym, settled) ∷ later ])

  -- `sum(settled for …)`
  pub sum_from : R → Staged R → R
  sum_from acc [] = acc
  sum_from acc ((sym, x) ∷ rest) = sum_from (n.plus acc x) rest

  accrue :
      R → Option (Position R) → String → List (String × Position R) → List (String × Position R)
  unfolding assign
  accrue x none sym positions = positions
  accrue x (some p) sym positions =
      assign sym (record p { accrued_funding = n.plus p.accrued_funding x }) positions

  -- One settlement: cash, the position, and the total received or paid.
  pub settle_one : String → R → PaperAccount R → PaperAccount R
  unfolding accrue lookup
  settle_one sym x a =
      let moved = record a {
        cash = n.plus a.cash x;
        positions = accrue x (lookup sym a.positions) sym a.positions;
      } in
      if n.lt x n.nought
      then record moved { funding_paid = n.plus a.funding_paid (n.negated x) }
      else record moved { funding_received = n.plus a.funding_received x }

  pub settle_all : Staged R → PaperAccount R → PaperAccount R
  settle_all [] a = a
  settle_all ((sym, x) ∷ rest) a = settle_all rest (settle_one sym x a)

  -- The staged settlements are applied if the cash stays finite and not negative.
  pub apply_staged : Instant → Staged R → PaperAccount R → Outcome (PaperAccount R)
  unfolding sum_from settle_all
  apply_staged end staged a = do
    let new_cash = n.plus a.cash (sum_from n.nought staged)
    raise_if (not (n.is_finite new_cash) || n.lt new_cash n.nought)
    value (record (settle_all staged a) { last_funding_ts = some end })

  -- `settle_funding`
  pub settle_funding :
      Instant
      → Instant
      → List (String × R)
      → List (String × ℕ)
      → List (String × R)
      → PaperAccount R
      → Outcome (PaperAccount R)
  unfolding missing stage apply_staged
  settle_funding start end rates intervals marks a = do
    raise_if (held_without_clock a)
    raise_if (ltb end start)
    raise_if (off_clock a.last_funding_ts start)
    raise_if
        (missing a.positions rates || missing a.positions intervals || missing a.positions marks)
    staged ← stage start end rates intervals marks a.positions
    apply_staged end staged a

  seen_before : Instant → List Instant → Bool
  seen_before t [] = false
  seen_before t (s ∷ seen) = (t == s) || seen_before t seen

  stage_events :
      Instant
      → Instant
      → String
      → Position R
      → List Instant
      → List (FundingEvent R)
      → Outcome (Staged R)
  unfolding seen_before realized_funding
  stage_events previous end sym p seen [] = value []
  stage_events previous end sym p seen (e ∷ events) = do
    raise_if (seen_before e.timestamp seen)
    raise_if (not (ltb previous e.timestamp && leb e.timestamp end))
    raise_if (bad_price e.rate e.mark)
    later ← stage_events previous end sym p (e.timestamp ∷ seen) events
    value ((sym, realized_funding e.mark p.qty e.rate p.direction) ∷ later)

  stage_symbol :
      Instant → Instant → String → Position R → Option (List (FundingEvent R)) → Outcome (Staged R)
  unfolding stage_events
  stage_symbol previous end sym p none = raised
  stage_symbol previous end sym p (some events) = stage_events previous end sym p [] events

  stage_symbols :
      Instant
      → Instant
      → List (String × List (FundingEvent R))
      → List (String × Position R)
      → Outcome (Staged R)
  unfolding stage_symbol lookup
  stage_symbols previous end events [] = value []
  stage_symbols previous end events ((sym, p) ∷ rest) = do
    here ← stage_symbol previous end sym p (lookup sym events)
    later ← stage_symbols previous end events rest
    value (here ++ later)

  -- The intervals of the held symbols, where each is one that is allowed.
  observed : List (String × ℕ) → List (String × Position R) → Outcome (List (String × ℕ))
  unfolding lookup
  observed intervals [] = value []
  observed intervals ((sym, p) ∷ rest) =
      let later = observed intervals rest in
      elim (lookup sym intervals) [
        | none ↦ raised
        | some i ↦ do raise_if (not (is_interval i)); kept ← later; value ((sym, i) ∷ kept)
      ]

  -- `settle_funding_events`
  pub settle_funding_events :
      List (String × List (FundingEvent R))
      → Instant
      → List (String × ℕ)
      → PaperAccount R
      → Outcome (PaperAccount R)
  unfolding missing stage_symbols observed apply_staged
  settle_funding_events events end intervals a = do
    raise_if (held_without_clock a)
    let previous = clock_or end a.last_funding_ts
    raise_if (ltb end previous)
    raise_if (missing a.positions events)
    kept ← observed intervals a.positions
    staged ← stage_symbols previous end events a.positions
    settled ← apply_staged end staged a
    value (record settled { funding_intervals_observed = kept })
