-- ===== src/Gate/Tests.antt =====
-- Runs of scripts/desk_schedule_gate.py on concrete instants: 2026-01-05 and the days around it.
use gpt_market_neutral_crypt.Prelude.{
  ℕ, ◌+◌, ◌*◌, ◌≡◌, refl, ◌↔◌, ◌≤◌, ◌-◌, none, some, List, [], ◌∷◌, value, arith, true,
}
use gpt_market_neutral_crypt.Time.{Instant, minute_us, hour_us, day_us}
use gpt_market_neutral_crypt.Gate.{
  full, heartbeat, latest_slot, Claims, ClaimsFile, absent, valid, due_slot, read_claims,
  claim_due_slot, release_claim, seed_current_slots,
}
use gpt_market_neutral_crypt.Gate.Claiming.{
  claimed_slot, IsLater, IsLatest, due_slot_lem, Poll, claimed_slots, Increasing,
  claimed_slots-Increasing, slot_found, release_then_claim,
}

-- Midnight of a day, and six hours.
abbrev monday : Instant
monday = 739_620 * day_us

abbrev grace : ℕ
grace = 6 * hour_us

abbrev nine : Instant
nine = monday + 9 * hour_us

abbrev morning_slot : Instant
morning_slot = monday + 8 * hour_us + 7 * minute_us

abbrev morning_claims : Claims
morning_claims = record {
  full_claim = none;
  heartbeat_claim = some (record { slot = morning_slot; claimed_at = nine });
}

abbrev polls : List Poll
polls =
    (heartbeat, nine, grace)
    ∷ (full, nine, grace)
    ∷ (heartbeat, nine + hour_us, grace)
    ∷ (heartbeat, monday + 17 * hour_us, grace)
    ∷ []

before_slot :
    latest_slot heartbeat (monday + 7 * hour_us) ≡ value (monday - 8 * hour_us + 7 * minute_us)
unfolding latest_slot
before_slot = refl

nine_slot : latest_slot heartbeat nine ≡ value morning_slot
unfolding latest_slot
nine_slot = refl

claim_at_nine :
    claim_due_slot heartbeat nine absent grace ≡ value (some morning_slot, valid morning_claims)
unfolding claim_due_slot due_slot latest_slot read_claims
claim_at_nine = refl

claimed_slots-Increasing_example : Increasing none (claimed_slots heartbeat absent polls)
claimed_slots-Increasing_example = claimed_slots-Increasing heartbeat absent polls

due_slot_lem_example :
    (due_slot heartbeat nine morning_claims grace ≡ value (some morning_slot)) ↔ (
      IsLatest heartbeat nine morning_slot
      × (nine - morning_slot ≤ grace)
      × IsLater (claimed_slot heartbeat (valid morning_claims)) morning_slot)
due_slot_lem_example =
    due_slot_lem heartbeat nine morning_slot grace morning_claims (omega arith) (omega arith)

release_then_claim_example :
    (file : ClaimsFile) × (release_claim heartbeat nine (valid morning_claims) grace
      ≡ value (some morning_slot, file))
    × (claimed_slot heartbeat file ≡ none)
    × (slot_found (claim_due_slot heartbeat nine file grace) ≡ some morning_slot)
release_then_claim_example =
    release_then_claim heartbeat nine nine nine grace morning_slot absent (valid morning_claims)
      claim_at_nine nine_slot (omega arith) (omega arith) nine_slot (omega arith) (omega arith)

abbrev seeded : ClaimsFile
seeded = valid (record {
  full_claim = some (record { slot = monday + 7 * minute_us; claimed_at = nine });
  heartbeat_claim = some (record { slot = morning_slot; claimed_at = nine });
})

seed_at_nine : seed_current_slots nine absent ≡ value (true, seeded)
unfolding seed_current_slots latest_slot
seed_at_nine = refl
