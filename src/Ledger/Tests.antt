-- ===== src/Ledger/Tests.antt =====
-- Runs of the per-cycle rows of futures_fund/reconcile_commit.py.
use gpt_market_neutral_crypt.Prelude.{ℕ, ◌≡◌, ◌≢◌, refl, ◌⊎◌, none, some, List, [], ◌∷◌, value}
use gpt_market_neutral_crypt.Ledger.{
  EquityRow, record_equity, other_equity, precedes_last, LedgerRow, RowLine, blank, row, jsonl_rows,
  append_ledger, other_rows, sort_rows,
}
use gpt_market_neutral_crypt.Ledger.Equity.{IsMonotonic, equity_of, record_equity_lem}
use gpt_market_neutral_crypt.Ledger.Rows.{IsAscending, row_of}
use gpt_market_neutral_crypt.Ledger.Appending.{append_ledger_lem}

abbrev first : LedgerRow
first = record { cycle = 1; text = "{1}" }

abbrev second : LedgerRow
second = record { cycle = 2; text = "{2}" }

abbrev third : LedgerRow
third = record { cycle = 3; text = "{3}" }

abbrev file : List (RowLine LedgerRow)
file = row third ∷ blank ∷ row first ∷ []

file_rows : jsonl_rows file ≡ value (third ∷ first ∷ [])
unfolding jsonl_rows
file_rows = refl

appended : append_ledger second file ≡ value (first ∷ second ∷ third ∷ [])
unfolding append_ledger jsonl_rows other_rows sort_rows
appended = refl

append_ledger_lem_example :
    let rows = first ∷ second ∷ third ∷ [] in
    IsAscending rows
    × (row_of 2 rows ≡ some second)
    × ((c : ℕ) → c ≢ 2 → row_of c rows ≡ row_of c (third ∷ first ∷ []))
    × ((row_of 2 (third ∷ first ∷ []) ≡ none) ⊎ (row_of 2 (third ∷ first ∷ []) ≡ some second))
append_ledger_lem_example =
    append_ledger_lem second file (third ∷ first ∷ []) (first ∷ second ∷ third ∷ []) file_rows
      appended

abbrev old_amount : EquityRow
old_amount = record { cycle = 1; ts = 10; equity = "100.0" }

abbrev new_amount : EquityRow
new_amount = record { cycle = 2; ts = 20; equity = "101.5" }

amounts_rows : jsonl_rows (row old_amount ∷ blank ∷ []) ≡ value (old_amount ∷ [])
unfolding jsonl_rows
amounts_rows = refl

amount_recorded :
    record_equity new_amount (row old_amount ∷ blank ∷ []) ≡ value (old_amount ∷ new_amount ∷ [])
unfolding record_equity jsonl_rows other_equity precedes_last
amount_recorded = refl

record_equity_lem_example :
    (IsMonotonic (old_amount ∷ []) → IsMonotonic (old_amount ∷ new_amount ∷ []))
    × (equity_of 2 (old_amount ∷ new_amount ∷ []) ≡ some new_amount)
    × ((c : ℕ) → c ≢ 2 → equity_of c (old_amount ∷ new_amount ∷ []) ≡ equity_of c (old_amount ∷ []))
record_equity_lem_example =
    record_equity_lem new_amount (row old_amount ∷ blank ∷ []) (old_amount ∷ [])
      (old_amount ∷ new_amount ∷ []) amounts_rows amount_recorded
