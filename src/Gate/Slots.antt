-- ===== src/Gate/Slots.antt =====
-- The slots of scripts/desk_schedule_gate.py: what `latest_slot` returns.
use gpt_market_neutral_crypt.Prelude.{
  ℕ, ◌+◌, ◌-◌, ◌*◌, ◌/◌, ◌≤◌, ◌<◌, ◌≡◌, ◌≢◌, refl, ◌⊎◌, inl, inr, value, raised, Outcome-cases,
  arith, In,
}
use gpt_market_neutral_crypt.Time.{Instant, minute_us, hour_us, day_us}
use gpt_market_neutral_crypt.Gate.{Kind, full, heartbeat, schedule_hours, latest_slot}

-- `s` is 00:07 of some day for the full cycle, 08:07 or 16:07 for the heartbeat.
abbrev pub IsNominal : Kind → Instant → Type 0
IsNominal kind s =
    (day : ℕ) × (hour : ℕ) × In hour (schedule_hours kind)
    × (s ≡ day * day_us + hour * hour_us + 7 * minute_us)

-- The instant is in the day that `slot_of` starts from.
day_of : (now : ℕ) → (now / day_us * day_us ≤ now) × (now < now / day_us * day_us + day_us)
day_of now = omega arith

full_slot_cases :
    (now s : Instant)
    → latest_slot full now ≡ value s
    → let today = now / day_us in
      ((s ≡ today * day_us + 7 * minute_us) × (s ≤ now))
      ⊎ ((s ≡ (today - 1) * day_us + 7 * minute_us)
          × (1 ≤ today)
          × (now < today * day_us + 7 * minute_us))
unfolding latest_slot
full_slot_cases now s h = ground arith

heartbeat_slot_cases :
    (now s : Instant)
    → latest_slot heartbeat now ≡ value s
    → let today = now / day_us in
      ((s ≡ today * day_us + 16 * hour_us + 7 * minute_us) × (s ≤ now))
      ⊎ ((s ≡ today * day_us + 8 * hour_us + 7 * minute_us)
          × (s ≤ now)
          × (now < today * day_us + 16 * hour_us + 7 * minute_us))
      ⊎ ((s ≡ (today - 1) * day_us + 16 * hour_us + 7 * minute_us)
          × (1 ≤ today)
          × (now < today * day_us + 8 * hour_us + 7 * minute_us))
unfolding latest_slot
heartbeat_slot_cases now s h = ground arith

-- `latest_slot` returns a nominal slot that has begun, and the latest such.
pub latest_slot_lem :
    (kind : Kind) (now s : Instant)
    → latest_slot kind now ≡ value s
    → IsNominal kind s × (s ≤ now) × ((t : Instant) → IsNominal kind t → t ≤ now → t ≤ s)
unfolding schedule_hours
latest_slot_lem full now s h = elim (full_slot_cases now s h) [
  | inl c ↦ (
    (now / day_us, 0, inl refl, omega arith),
    c.1,
    λ t (d, hour, p, e) le. elim p [ inl z ↦ omega (arith, day_of now) | inr f ↦ absurd f ],
  )
  | inr c ↦ (
    (now / day_us - 1, 0, inl refl, omega arith),
    omega (arith, day_of now),
    λ t (d, hour, p, e) le. elim p [ inl z ↦ omega (arith, day_of now) | inr f ↦ absurd f ],
  )
]
latest_slot_lem heartbeat now s h = elim (heartbeat_slot_cases now s h) [
  | inl c ↦ (
    (now / day_us, 16, inr (inl refl), omega arith),
    c.1,
    λ t (d, hour, p, e) le. omega (arith, day_of now),
  )
  | inr (inl c) ↦ (
    (now / day_us, 8, inl refl, omega arith),
    c.1,
    λ t (d, hour, p, e) le. omega (arith, day_of now),
  )
  | inr (inr c) ↦ (
    (now / day_us - 1, 16, inr (inl refl), omega arith),
    omega (arith, day_of now),
    λ t (d, hour, p, e) le. omega (arith, day_of now),
  )
]

full_slot-ne-raised : (now : Instant) → day_us ≤ now → latest_slot full now ≢ raised
unfolding latest_slot
full_slot-ne-raised now h e = ground arith

heartbeat_slot-ne-raised : (now : Instant) → day_us ≤ now → latest_slot heartbeat now ≢ raised
unfolding latest_slot
heartbeat_slot-ne-raised now h e = ground arith

-- From the second day of the calendar on there is such a slot.
pub latest_slot_total :
    (kind : Kind) (now : Instant) → day_us ≤ now → (s : Instant) × (latest_slot kind now ≡ value s)
latest_slot_total full now h = elim (Outcome-cases (latest_slot full now)) [
  | inl e ↦ absurd (full_slot-ne-raised now h e)
  | inr found ↦ found
]
latest_slot_total heartbeat now h = elim (Outcome-cases (latest_slot heartbeat now)) [
  | inl e ↦ absurd (heartbeat_slot-ne-raised now h e)
  | inr found ↦ found
]
