-- ===== src/Funding.antt =====
-- Settlement times of futures_fund/costs.py: `funding_boundary_hours` and `count_funding_events`
-- on UTC instants. An interval of zero hours, on which `range` raises, is not used by the callers
-- that are modelled; an overflow in the last hour of the year 9999 is not modelled.
pub mod Counting
mod Tests
use gpt_market_neutral_crypt.Prelude.{
  ℕ, zero, suc, ◌+◌, ◌*◌, ◌/◌, ◌%◌, Bool, false, ◌||◌, List, [], ◌∷◌, leb, ltb, ◌==◌, if◌then◌else◌,
}
use gpt_market_neutral_crypt.Time.{Instant, hour_us}

-- `range(h, 24, interval_hours)`
range_from : ℕ → ℕ → ℕ → List ℕ
range_from zero h interval = []
range_from (suc fuel) h interval =
    let rest = range_from fuel (h + interval) interval in if ltb h 24 then h ∷ rest else []

pub funding_boundary_hours : ℕ → List ℕ
unfolding range_from
funding_boundary_hours interval = range_from 24 0 interval

abbrev in_hours : ℕ → List ℕ → Bool
in_hours h [] = false
in_hours h (x ∷ hours) = (h == x) || in_hours h hours

-- The loop from `cursor` on, an hour each round.
count_from : ℕ → Instant → Instant → List ℕ → ℕ
count_from zero cursor exit_ts hours = 0
count_from (suc fuel) cursor exit_ts hours =
    let rest = count_from fuel (cursor + hour_us) exit_ts hours in
    if leb cursor exit_ts
    then (if in_hours (cursor / hour_us % 24) hours then suc rest else rest)
    else 0

-- `count_funding_events`
pub count_funding_events : Instant → Instant → ℕ → ℕ
unfolding count_from
count_funding_events entry_ts exit_ts interval =
    if leb exit_ts entry_ts
    then 0
    else count_from (suc (exit_ts / hour_us)) (entry_ts / hour_us * hour_us + hour_us) exit_ts
        (funding_boundary_hours interval)
