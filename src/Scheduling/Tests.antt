-- ===== src/Scheduling/Tests.antt =====
-- Runs of futures_fund/scheduling.py on concrete roots, at a timeframe of four hours.
use gpt_market_neutral_crypt.Prelude.{
  ℕ, ◌+◌, ◌*◌, ◌≡◌, ◌↔◌, ◌≤◌, ◌<◌, refl, none, some, [], ◌∷◌, value, raised, arith, sym, ◌∙◌, ◌≢◌,
  value-ne-raised,
}
use gpt_market_neutral_crypt.Time.{Instant, minute_us, hour_us, day_us}
use gpt_market_neutral_crypt.Scheduling.{
  floor_tf, Report, readable, missing, absent, aware, Root, fresh, retry, skip, last_completed,
  attempt, cycle_due, served_candle, trusted_candle, parse_utc,
}
use gpt_market_neutral_crypt.Scheduling.Grid.{IsOnGrid, floor_tf_lem, floor_tf_daily}
use gpt_market_neutral_crypt.Scheduling.Due.{Completed, cycle_due-skip}

abbrev monday : Instant
monday = 739_620 * day_us

abbrev now : Instant
now = monday + 9 * hour_us

abbrev eight : Instant
eight = monday + 8 * hour_us

-- A report that names its candle, and one that has only its decision time.
abbrev by_candle : Instant → Report
by_candle c = record { ran_at = absent; candle = aware c; decision_ts = absent; mtime = none }

abbrev by_decision : Instant → Report
by_decision t = record { ran_at = absent; candle = absent; decision_ts = aware t; mtime = none }

now_floor : floor_tf now 240 ≡ value eight
unfolding floor_tf
now_floor = refl

abbrev root : Root
root = (5, missing) ∷ (4, readable (by_decision (monday + 7 * hour_us))) ∷ []

root_verdict : cycle_due root now 240 ≡ (retry, 5)
unfolding cycle_due last_completed trusted_candle served_candle floor_tf parse_utc
root_verdict = refl

served_root : cycle_due ((4, readable (by_decision now)) ∷ []) now 240 ≡ (skip, 4)
unfolding cycle_due last_completed trusted_candle served_candle floor_tf parse_utc
served_root = refl

stale_attempt : attempt ((4, readable (by_candle monday)) ∷ []) now 240 ≡ value (fresh, 5)
unfolding attempt last_completed trusted_candle served_candle floor_tf parse_utc
stale_attempt = refl

floor_tf_lem_example :
    IsOnGrid (240 * minute_us) eight × (eight ≤ now) × (now < eight + 240 * minute_us)
floor_tf_lem_example = floor_tf_lem now 240 eight now_floor

floor_tf_daily_example : floor_tf now 240 ≡ value eight
floor_tf_daily_example = floor_tf_daily now 240 6 (omega arith) (omega arith) (omega arith)

cycle_due-skip_example :
    (cycle_due root now 240 ≡ (skip, 4))
    ↔ ((c : Instant) × Completed now 240 eight root 4 c × (eight ≤ c))
cycle_due-skip_example = cycle_due-skip root now 240 4 eight now_floor

abbrev older : Root
older = (4, readable (by_candle monday)) ∷ []

missing_candle : trusted_candle missing now 240 eight ≡ value none
unfolding trusted_candle served_candle
missing_candle = refl

older_completed : last_completed older now 240 eight ≡ value (some (4, monday))
unfolding last_completed trusted_candle served_candle parse_utc
older_completed = refl

older-ne-raised : last_completed older now 240 eight ≢ raised
older-ne-raised e = value-ne-raised (sym older_completed ∙ e)

older_candle : (k c : ℕ) → Completed now 240 eight older k c → c < eight
unfolding trusted_candle served_candle parse_utc
older_candle k c h = ground arith
