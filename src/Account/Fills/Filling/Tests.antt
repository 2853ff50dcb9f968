-- ===== src/Account/Fills/Filling/Tests.antt =====
-- Runs of `apply_fills` of futures_fund/account.py in whole amounts: the long position of 3 is
-- dropped from the book, and a short of 2 is opened.
use gpt_market_neutral_crypt.Prelude.{
  ◌++◌, All, true, ◌≡◌, refl, none, some, List, [], ◌∷◌, String, Outcome, value,
}
use gpt_market_neutral_crypt.Account.{
  short, alpha, PaperAccount, closed_leg, lookup, assign, assign_thesis, pop, blank_thesis,
}
use gpt_market_neutral_crypt.Account.Keys.{IsKeyed}
use gpt_market_neutral_crypt.Account.Samples.{
  negsuc, ℤ, pos, whole, ◌+ℤ◌, ◌-ℤ◌, ◌*ℤ◌, ◌/ℤ◌, neg_ℤ, lt_ℤ,
}
use gpt_market_neutral_crypt.Account.Settle.Tests.{monday, position, account}
use gpt_market_neutral_crypt.Account.Fills.{
  Book, Trade, Execution, consolidate, with_dropped, check_targets, is_close,
}
use gpt_market_neutral_crypt.Account.Fills.Filling.{apply_fills}
use gpt_market_neutral_crypt.Account.Reconcile.{reconcile_opposite}
use gpt_market_neutral_crypt.Account.Fills.Filling.Keys.{apply_fills-IsKeyed}
use gpt_market_neutral_crypt.Account.Fills.Proved.{IsProved}
use gpt_market_neutral_crypt.Account.Fills.Filling.Complete.{apply_fills-IsProved}

abbrev one_each : String → ℤ → ℤ → Outcome (ℤ × ℤ)
one_each sym delta mark = value (pos 1, pos 1)

abbrev book : List (Trade ℤ)
book =
    record {
      symbol = "B";
      direction = short;
      target_notional = pos 10;
      role = some alpha;
      thesis = none;
    }
    ∷ []

abbrev execution : Execution ℤ
execution = record {
  marks = ("A", pos 12) ∷ ("B", pos 5) ∷ [];
  default_ts = monday;
  opening = record { opened_cycle = some 2; opened_cadence = none };
  targets = none;
  times = [];
  completed = [];
}

-- What the test's last state is made of.
abbrev filled : PaperAccount ℤ
filled = record account {
  cash = pos 102;
  positions =
      (
        "B",
        record {
          symbol = "B";
          direction = short;
          qty = pos 2;
          entry_price = pos 5;
          opened_ts = monday;
          opening = record { opened_cycle = some 2; opened_cadence = none };
          seat_role = alpha;
          thesis = blank_thesis;
          accrued_funding = pos 0;
          accrued_fees = pos 1;
          accrued_slippage = pos 1;
          realized_pnl = pos 0;
        },
      )
      ∷ [];
  realized_pnl = pos 6;
  fees_paid = pos 2;
  slippage_paid = pos 2;
  closed_legs =
      closed_leg
        (record position { accrued_fees = pos 1; accrued_slippage = pos 1; realized_pnl = pos 6 })
      ∷ [];
}

fills : apply_fills whole one_each book execution account ≡ value filled
unfolding apply_fills consolidate with_dropped check_targets is_close reconcile_opposite lookup
    assign assign_thesis pop ◌+ℤ◌ ◌-ℤ◌ ◌*ℤ◌ ◌/ℤ◌ neg_ℤ lt_ℤ
fills = refl

apply_fills-IsKeyed_example : IsKeyed filled.positions
apply_fills-IsKeyed_example =
    apply_fills-IsKeyed whole one_each book execution account filled (refl, tt) fills

-- The execution result of the same book, with the close of A proved complete.
abbrev targeted : Execution ℤ
targeted = record execution {
  targets = some (("A", pos 0) ∷ ("B", negsuc 1) ∷ []);
  completed = ("A", true) ∷ [];
}

targeted_fills : apply_fills whole one_each book targeted account ≡ value filled
unfolding apply_fills consolidate with_dropped check_targets is_close reconcile_opposite lookup
    assign assign_thesis pop ◌+ℤ◌ ◌-ℤ◌ ◌*ℤ◌ ◌/ℤ◌ neg_ℤ lt_ℤ
targeted_fills = refl

apply_fills-IsProved_example :
    (named : Book ℤ) × (consolidate whole book (record { net = []; roles = []; theses = [] })
      ≡ value named)
    × All
        (IsProved whole targeted named account.positions)
        (named.net ++ with_dropped whole named.net account.positions)
apply_fills-IsProved_example =
    apply_fills-IsProved whole one_each book targeted (("A", pos 0) ∷ ("B", negsuc 1) ∷ []) account
      filled refl targeted_fills
