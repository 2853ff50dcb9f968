-- ===== src/Account/Tests.antt =====
-- Runs of futures_fund/account.py in whole amounts: a long position of 3 that was opened at 10.
use gpt_market_neutral_crypt.Prelude.{◌≡◌, refl, inr, false, none, some, [], ◌∷◌}
use gpt_market_neutral_crypt.Account.{long, short, alpha, hedge, price_pnl, roll_seat_lifecycle}
use gpt_market_neutral_crypt.Account.Samples.{
  ℤ, pos, negsuc, whole, whole-Exact, ◌+ℤ◌, ◌-ℤ◌, neg_ℤ, lt_ℤ,
}
use gpt_market_neutral_crypt.Account.Exact.{roll_seat_lifecycle-equity}
use gpt_market_neutral_crypt.Account.Settle.Tests.{
  account, position, monday, settled, settled_window, window_end,
}
use gpt_market_neutral_crypt.Account.Settle.Cash.{net, settle_funding-net}
use gpt_market_neutral_crypt.Account.Reconcile.{Order, closed_qty, reconcile_opposite}
use gpt_market_neutral_crypt.Account.Reconcile.Frictions.{reconcile_opposite-frictions}

roll_seat_lifecycle-equity_example :
    let (a', p') =
      roll_seat_lifecycle whole account position
        (pos 12)
        monday
        (record { opened_cycle = some 2; opened_cadence = none })
        hedge
        none in
    (p'.direction ≡ long)
    × (p'.qty ≡ pos 3)
    × (a'.cash +ℤ price_pnl whole p' p'.qty (pos 12)
        ≡ account.cash +ℤ price_pnl whole position (pos 3) (pos 12))
roll_seat_lifecycle-equity_example =
    roll_seat_lifecycle-equity whole whole-Exact account position (pos 12) monday
      (record { opened_cycle = some 2; opened_cadence = none }) hedge none

settle_funding-net_example : net whole whole-Exact settled ≡ net whole whole-Exact account
settle_funding-net_example =
    settle_funding-net whole whole-Exact monday window_end (("A", pos 1) ∷ []) (("A", 8) ∷ [])
      (("A", pos 2) ∷ []) account settled settled_window

-- A flip to 2 short, for a fee of 5 and slippage of 1.
abbrev flip : Order ℤ
flip = record {
  sym = "A";
  direction = short;
  target_signed_qty = negsuc 1;
  mark = pos 12;
  fee = pos 5;
  slip = pos 1;
  ts = monday;
  opening = record { opened_cycle = some 2; opened_cadence = none };
  role = alpha;
  thesis = none;
}

closes_all : lt_ℤ (pos 0) (position.qty -ℤ closed_qty whole flip position) ≡ false
unfolding ◌-ℤ◌ lt_ℤ neg_ℤ
closes_all = refl

reconcile_opposite-frictions_example :
    let a' = reconcile_opposite whole flip position account in
    (a'.fees_paid ≡ account.fees_paid +ℤ pos 5)
    × (a'.slippage_paid ≡ account.slippage_paid +ℤ pos 1)
reconcile_opposite-frictions_example =
    reconcile_opposite-frictions whole whole-Exact flip position account (inr closes_all)
