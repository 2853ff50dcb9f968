-- ===== src/Funding/Tests.antt =====
-- Counts of futures_fund/costs.py on windows of a day.
use gpt_market_neutral_crypt.Prelude.{◌+◌, ◌*◌, ◌/◌, ◌≡◌, refl, inl, inr, arith}
use gpt_market_neutral_crypt.Time.{Instant, minute_us, hour_us, day_us}
use gpt_market_neutral_crypt.Funding.{count_funding_events}
use gpt_market_neutral_crypt.Funding.Counting.{count_funding_events_lem, count_funding_events-split}

abbrev monday : Instant
monday = 739_620 * day_us

abbrev eight : Instant
eight = monday + 8 * hour_us

-- The end of a window belongs to it, and its start does not: of 08:00 to 16:00 only 16:00 counts.
eight_to_sixteen : count_funding_events eight (eight + 8 * hour_us) 8 ≡ 1
eight_to_sixteen = ground (
  arith,
  count_funding_events_lem eight (eight + 8 * hour_us) 8 (inr (inr (inr refl))) (omega arith),
)

count_funding_events_lem_example :
    count_funding_events eight (eight + day_us) 4 + eight / hour_us / 4
    ≡ (eight + day_us) / hour_us / 4
count_funding_events_lem_example =
    count_funding_events_lem eight (eight + day_us) 4 (inr (inr (inl refl))) (omega arith)

count_funding_events-split_example :
    count_funding_events monday eight 4 + count_funding_events eight (eight + minute_us) 4
    ≡ count_funding_events monday (eight + minute_us) 4
count_funding_events-split_example =
    count_funding_events-split monday eight (eight + minute_us) 4 (inr (inr (inl refl)))
      (omega arith) (omega arith)
