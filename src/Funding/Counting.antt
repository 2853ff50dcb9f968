-- ===== src/Funding/Counting.antt =====
-- What `count_funding_events` of futures_fund/costs.py counts.
use gpt_market_neutral_crypt.Prelude.{
  ℕ, zero, suc, ◌+◌, ◌*◌, ◌/◌, ◌%◌, ◌≤◌, ◌<◌, ◌≡◌, ◌⊎◌, inl, inr, true, false, arith, ap, leb,
  if◌then◌else◌,
}
use gpt_market_neutral_crypt.Time.{hour_us}
use gpt_market_neutral_crypt.Funding.{
  funding_boundary_hours, in_hours, count_from, count_funding_events,
}

-- The intervals that the desk accepts.
abbrev pub IsInterval : ℕ → Type 0
IsInterval i = (i ≡ 1) ⊎ (i ≡ 2) ⊎ (i ≡ 4) ⊎ (i ≡ 8)

-- The hour after hour `k` is a boundary exactly if it starts another interval.
boundary_step :
    (i k : ℕ)
    → IsInterval i
    → (suc k) / i ≡ k / i + (if in_hours (suc k % 24) (funding_boundary_hours i) then 1 else 0)
unfolding funding_boundary_hours
boundary_step i k (inl h) = rw h (ground arith)
boundary_step i k (inr (inl h)) = rw h (ground arith)
boundary_step i k (inr (inr (inl h))) = rw h (ground arith)
boundary_step i k (inr (inr (inr h))) = rw h (ground arith)

-- The loop from hour `k + 1` on, with a round for every hour that is left, counts the intervals
-- that start later than hour `k`.
count_from_hours :
    (fuel i k exit_ts : ℕ)
    → IsInterval i
    → k ≤ exit_ts / hour_us
    → exit_ts / hour_us < k + fuel
    → count_from fuel (suc k * hour_us) exit_ts (funding_boundary_hours i) + k / i
      ≡ exit_ts / hour_us / i
unfolding count_from
count_from_hours zero i k exit_ts h lo hi = absurd (omega arith)
count_from_hours (suc fuel) i k exit_ts h lo hi = elim (hour_cases k) [
  | inl last ↦
      let done : leb (suc k * hour_us) exit_ts ≡ false = ground arith in
      let same : k ≡ exit_ts / hour_us = omega arith in
      rw done (ground (arith, ap (λ (x : ℕ). x / i) same))
  | inr more ↦
      let again = count_from_hours fuel i (suc k) exit_ts h (omega arith) (omega arith) in
      let next : suc k * hour_us + hour_us ≡ suc (suc k) * hour_us = omega arith in
      let here : suc k * hour_us / hour_us ≡ suc k = omega arith in
      let on : leb (suc k * hour_us) exit_ts ≡ true = ground arith in
      rw (on, next, here) (ground (arith, again, boundary_step i k h))
]
  where
    hour_cases : (k : ℕ) → (exit_ts / hour_us ≤ k) ⊎ (suc k ≤ exit_ts / hour_us)
    hour_cases k = omega arith

-- For an interval of 1, 2, 4 or 8 hours the count is the number of whole intervals, counted from the calendar's
-- first midnight, that end after `entry_ts` and no later than `exit_ts`.
pub count_funding_events_lem :
    (entry_ts exit_ts i : ℕ)
    → IsInterval i
    → entry_ts ≤ exit_ts
    → count_funding_events entry_ts exit_ts i + entry_ts / hour_us / i ≡ exit_ts / hour_us / i
unfolding count_funding_events
count_funding_events_lem entry_ts exit_ts i h le =
    let loop =
      count_from_hours (suc (exit_ts / hour_us)) i (entry_ts / hour_us) exit_ts h (omega arith)
        (omega arith) in
    let start : entry_ts / hour_us * hour_us + hour_us ≡ suc (entry_ts / hour_us) * hour_us =
      omega arith in
    elim (cases entry_ts) [ inl same ↦ ground arith | inr later ↦ rw start (ground (arith, loop)) ]
  where
    cases : (entry_ts : ℕ) → (exit_ts ≤ entry_ts) ⊎ (entry_ts < exit_ts)
    cases entry_ts = omega arith

-- Settling a window in two parts counts every settlement once: the counts of two windows that
-- meet add up to the count of the whole, for an interval of 1, 2, 4 or 8 hours.
pub count_funding_events-split :
    (a b c i : ℕ)
    → IsInterval i
    → a ≤ b
    → b ≤ c
    → count_funding_events a b i + count_funding_events b c i ≡ count_funding_events a c i
count_funding_events-split a b c i h ab bc = omega (
  arith,
  count_funding_events_lem a b i h ab,
  count_funding_events_lem b c i h bc,
  count_funding_events_lem a c i h (omega arith),
)
