-- ===== src/Scheduling/Grid.antt =====
-- The timeframe grid of futures_fund/scheduling.py: what `floor_tf` returns.
use native.Mathlib.Nat.{mul-mod_left}
use gpt_market_neutral_crypt.Prelude.{
  ℕ, ◌+◌, ◌-◌, ◌*◌, ◌/◌, ◌%◌, ◌≤◌, ◌<◌, ◌≡◌, ◌∙◌, ◌⊎◌, inl, inr, value, leb, Bool-cases, arith, ap,
}
use gpt_market_neutral_crypt.Time.{Instant, epoch, minute_us, day_us}
use gpt_market_neutral_crypt.Scheduling.{floor_tf}

round_down : (a s : ℕ) → 0 < s → (a / s * s ≤ a) × (a < a / s * s + s)
round_down a s h = grind arith

round_up : (a s : ℕ) → 0 < s → (a ≤ (a + (s - 1)) / s * s) × ((a + (s - 1)) / s * s < a + s)
round_up a s h = grind arith

div_unique : (a s k : ℕ) → k * s ≤ a → a < k * s + s → a / s ≡ k
div_unique a s k lo hi = grind arith

-- For an instant from the epoch on and a positive timeframe, `floor_tf` returns the grid point,
-- counted from the epoch, whose candle holds the instant.
floor_tf_cell :
    (dt tf : ℕ)
    → epoch ≤ dt
    → 0 < tf
    → (c : Instant) × (floor_tf dt tf ≡ value c)
      × (c ≤ dt)
      × (dt < c + tf * minute_us)
      × (epoch ≤ c)
      × ((c - epoch) % (tf * minute_us) ≡ 0)
unfolding floor_tf
floor_tf_cell dt tf h pos =
    let s = tf * minute_us in
    let b = round_down (dt - epoch) s (omega arith) in
    (
      epoch + (dt - epoch) / s * s,
      ground arith,
      omega arith,
      omega arith,
      omega arith,
      ap (λ (x : ℕ). x % s) (omega arith) ∙ mul-mod_left ((dt - epoch) / s) s,
    )

-- `c` is a whole number of steps after or before the epoch.
abbrev pub IsOnGrid : ℕ → Instant → Type 0
IsOnGrid step c = (k : ℕ) × ((c ≡ epoch + k * step) ⊎ (c + k * step ≡ epoch))

-- Whenever `floor_tf` returns, also for an instant before the epoch, the result is on the grid of the epoch's timeframe
-- steps, at most the instant, and less than a step behind it.
pub floor_tf_lem :
    (dt tf c : ℕ)
    → floor_tf dt tf ≡ value c
    → IsOnGrid (tf * minute_us) c × (c ≤ dt) × (dt < c + tf * minute_us)
unfolding floor_tf
floor_tf_lem dt tf c e =
    let step = tf * minute_us in
    let below = round_down (dt - epoch) step in
    let above = round_up (epoch - dt) step in
    elim (Bool-cases (leb epoch dt)) [
      | inl after ↦
          let cell : c ≡ epoch + (dt - epoch) / step * step = ground arith in
          (((dt - epoch) / step, inl cell), ground (arith, below), ground (arith, below))
      | inr before ↦
          let cell : c + (epoch - dt + (step - 1)) / step * step ≡ epoch = ground (arith, above) in
          (
            ((epoch - dt + (step - 1)) / step, inr cell),
            ground (arith, above),
            ground (arith, above),
          )
    ]

-- From the epoch on, two instants of one candle are floored to the same grid point.
pub floor_tf_same_cell :
    (dt dt' tf c : ℕ)
    → epoch ≤ dt
    → floor_tf dt tf ≡ value c
    → c ≤ dt'
    → dt' < c + tf * minute_us
    → floor_tf dt' tf ≡ value c
unfolding floor_tf
floor_tf_same_cell dt dt' tf c h e lo hi = ground (
  arith,
  div_unique (dt' - epoch) (tf * minute_us) ((dt - epoch) / (tf * minute_us)),
  round_down (dt - epoch) (tf * minute_us),
)

-- Rounding down to a step commutes with an offset of whole steps.
round_down_shift : (m r s : ℕ) → 0 < s → (m * s + r) / s * s ≡ m * s + r / s * s
round_down_shift m r s h =
    let b = round_down r s h in
    let q : (m * s + r) / s ≡ m + r / s =
      div_unique (m * s + r) s (m + r / s) (omega arith) (omega arith) in
    rw q (omega arith)

-- From the epoch on, for a positive timeframe that divides the day, the grid anchored at the epoch
-- is the grid anchored at the midnight before the instant.
pub floor_tf_daily :
    (dt tf k : ℕ)
    → epoch ≤ dt
    → 0 < tf
    → k * (tf * minute_us) ≡ day_us
    → let midnight = dt / day_us * day_us in
      floor_tf dt tf ≡ value (midnight + (dt - midnight) / (tf * minute_us) * (tf * minute_us))
unfolding floor_tf
floor_tf_daily dt tf k h pos e =
    let s = tf * minute_us in
    let b = round_down dt day_us (omega arith) in
    let days = dt / day_us - 719_162 in
    let r = dt - dt / day_us * day_us in
    let whole : days * k * s ≡ days * day_us = omega (arith, ap (λ (x : ℕ). days * x) e) in
    let cut : dt - epoch ≡ days * k * s + r = omega arith in
    ground (arith, round_down_shift (days * k) r s, ap (λ (x : ℕ). x / s * s) cut)
