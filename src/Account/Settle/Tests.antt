-- ===== src/Account/Settle/Tests.antt =====
-- Funding settlements of futures_fund/account.py in whole amounts: a day of one long position.
use gpt_market_neutral_crypt.Prelude.{
  ◌+◌, ◌*◌, ◌≡◌, refl, none, some, List, [], ◌∷◌, String, value, arith, All, inr,
}
use gpt_market_neutral_crypt.Time.{Instant, hour_us, day_us}
use gpt_market_neutral_crypt.Funding.{count_funding_events}
use gpt_market_neutral_crypt.Funding.Counting.{count_funding_events_lem}
use gpt_market_neutral_crypt.Account.{
  long, alpha, Position, PaperAccount, blank_thesis, lookup, assign,
}
use gpt_market_neutral_crypt.Account.Samples.{ℤ, pos, negsuc, whole, ◌+ℤ◌, ◌-ℤ◌, ◌*ℤ◌, neg_ℤ, lt_ℤ}
use gpt_market_neutral_crypt.Account.Settle.{
  FundingEvent, missing, stage, stage_one, apply_staged, settle_all, settle_one, sum_from, of_count,
  realized_funding, accrue, settle_funding, settle_funding_events, stage_symbols, stage_symbol,
  stage_events, observed, seen_before,
}
use gpt_market_neutral_crypt.Account.Settle.Clock.{EventsOf, settle_funding_events-disjoint}

abbrev pub monday : Instant
monday = 739_620 * day_us

abbrev pub window_end : Instant
window_end = monday + 9 * hour_us

abbrev pub position : Position ℤ
position = record {
  symbol = "A";
  direction = long;
  qty = pos 3;
  entry_price = pos 10;
  opened_ts = monday;
  opening = record { opened_cycle = some 1; opened_cadence = none };
  seat_role = alpha;
  thesis = blank_thesis;
  accrued_funding = pos 0;
  accrued_fees = pos 0;
  accrued_slippage = pos 0;
  realized_pnl = pos 0;
}

abbrev pub account : PaperAccount ℤ
account = record {
  cash = pos 100;
  positions = ("A", position) ∷ [];
  realized_pnl = pos 0;
  last_funding_ts = some monday;
  funding_intervals_observed = [];
  fees_paid = pos 0;
  slippage_paid = pos 0;
  funding_received = pos 0;
  funding_paid = pos 0;
  closed_legs = [];
}

-- One event at 08:00: the long position pays 2 * 3 * 1.
abbrev pub settled : PaperAccount ℤ
settled = record account {
  cash = pos 94;
  positions = ("A", record position { accrued_funding = negsuc 5 }) ∷ [];
  last_funding_ts = some window_end;
  funding_paid = pos 6;
}

one_event : count_funding_events monday window_end 8 ≡ 1
one_event =
    ground
      (arith, count_funding_events_lem monday window_end 8 (inr (inr (inr refl))) (omega arith))

pub settled_window :
    settle_funding whole monday window_end
      (("A", pos 1) ∷ [])
      (("A", 8) ∷ [])
      (("A", pos 2) ∷ [])
      account
    ≡ value settled
unfolding settle_funding missing stage stage_one apply_staged settle_all settle_one sum_from
    of_count realized_funding accrue lookup assign ◌+ℤ◌ ◌-ℤ◌ ◌*ℤ◌ neg_ℤ lt_ℤ
settled_window = rw one_event refl

abbrev at : Instant → List (String × List (FundingEvent ℤ))
at t = ("A", record { timestamp = t; rate = pos 1; mark = pos 2 } ∷ []) ∷ []

abbrev events_account : PaperAccount ℤ
events_account = record settled { funding_intervals_observed = ("A", 8) ∷ [] }

abbrev later_account : PaperAccount ℤ
later_account = record events_account {
  cash = pos 88;
  positions = ("A", record position { accrued_funding = negsuc 11 }) ∷ [];
  last_funding_ts = some (monday + 17 * hour_us);
  funding_paid = pos 12;
}

events_settled :
    settle_funding_events whole (at (monday + 8 * hour_us)) window_end (("A", 8) ∷ []) account
    ≡ value events_account
unfolding settle_funding_events missing stage_symbols stage_symbol stage_events observed seen_before
    apply_staged settle_all settle_one sum_from realized_funding accrue lookup assign ◌+ℤ◌ ◌-ℤ◌ ◌*ℤ◌
    neg_ℤ lt_ℤ
events_settled = refl

later_settled :
    settle_funding_events whole
      (at (monday + 16 * hour_us))
      (monday + 17 * hour_us)
      (("A", 8) ∷ [])
      events_account
    ≡ value later_account
unfolding settle_funding_events missing stage_symbols stage_symbol stage_events observed seen_before
    apply_staged settle_all settle_one sum_from realized_funding accrue lookup assign ◌+ℤ◌ ◌-ℤ◌ ◌*ℤ◌
    neg_ℤ lt_ℤ
later_settled = refl

settle_funding_events-disjoint_example :
    All
      (EventsOf whole (at (monday + 16 * hour_us)) window_end (monday + 17 * hour_us))
      events_account.positions
settle_funding_events-disjoint_example =
    settle_funding_events-disjoint whole (at (monday + 8 * hour_us)) (at (monday + 16 * hour_us))
      window_end (monday + 17 * hour_us) (("A", 8) ∷ []) (("A", 8) ∷ []) account events_account
      later_account events_settled later_settled
