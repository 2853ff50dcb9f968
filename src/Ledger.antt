-- ===== src/Ledger.antt =====
-- The per-cycle rows of futures_fund/reconcile_commit.py: `append_ledger` on ledger.jsonl and
-- `record_equity` on equity-history.jsonl. A ledger row is its cycle and the canonical text of the
-- whole object; an equity amount is the text of the float.
pub mod Rows
pub mod Appending
pub mod Equity
mod Tests
use gpt_market_neutral_crypt.Prelude.{
  ℕ, zero, suc, ◌+◌, Bool, true, false, ◌||◌, ◌&&◌, not, Option, none, some, List, [], ◌∷◌, ◌++◌,
  map, ltb, leb, ◌==◌, if◌then◌else◌, Outcome, value, raised, ◌>>=◌, ◌>>◌, raise_if, str_eq, String,
}
use gpt_market_neutral_crypt.Time.{Instant}

pub record LedgerRow : Type 0 where
  pub cycle : ℕ
  pub text : String

pub record EquityRow : Type 0 where
  pub cycle : ℕ
  pub ts : Instant
  pub equity : String

-- A line of a JSONL file of such rows: blank, one that raises, or a row.
pub data RowLine {ℓ} (A : Type ℓ) : Type ℓ where
  blank malformed : RowLine A
  row : A → RowLine A

-- `_jsonl_rows` and the decoding of each row.
unfoldable pub jsonl_rows {ℓ} : {A : Type ℓ} → List (RowLine A) → Outcome (List A)
jsonl_rows [] = value []
jsonl_rows (blank ∷ lines) = jsonl_rows lines
jsonl_rows (malformed ∷ lines) = raised
jsonl_rows (row r ∷ lines) = do rows ← jsonl_rows lines; value (r ∷ rows)

abbrev pub has_cycle : ℕ → List ℕ → Bool
has_cycle c [] = false
has_cycle c (d ∷ seen) = (c == d) || has_cycle c seen

-- The rows of the other cycles: a cycle that stands twice, or a row of the record's cycle that
-- differs from it, raises.
unfoldable pub other_rows : LedgerRow → List ℕ → List LedgerRow → Outcome (List LedgerRow)
other_rows record_row seen [] = value []
other_rows record_row seen (r ∷ rows) = do
  raise_if (has_cycle r.cycle seen)
  raise_if ((r.cycle == record_row.cycle) && not (str_eq r.text record_row.text))
  rest ← other_rows record_row (r.cycle ∷ seen) rows
  value (if r.cycle == record_row.cycle then rest else r ∷ rest)

-- `rows.sort(key=cycle)`, stable.
unfoldable pub insert_row : LedgerRow → List LedgerRow → List LedgerRow
insert_row r [] = r ∷ []
insert_row r (x ∷ rows) = if leb r.cycle x.cycle then r ∷ x ∷ rows else x ∷ insert_row r rows

unfoldable pub sort_rows : List LedgerRow → List LedgerRow
unfolding insert_row
sort_rows [] = []
sort_rows (r ∷ rows) = insert_row r (sort_rows rows)

-- `append_ledger`: the lines of the new file.
unfoldable pub append_ledger : LedgerRow → List (RowLine LedgerRow) → Outcome (List LedgerRow)
unfolding other_rows
append_ledger r lines = do
  rows ← jsonl_rows lines
  others ← other_rows r [] rows
  value (sort_rows (others ++ r ∷ []))

same_equity : EquityRow → EquityRow → Bool
same_equity a b = (a.ts == b.ts) && str_eq a.equity b.equity

unfoldable pub other_equity : EquityRow → List ℕ → List EquityRow → Outcome (List EquityRow)
unfolding same_equity
other_equity new seen [] = value []
other_equity new seen (r ∷ rows) = do
  raise_if (has_cycle r.cycle seen)
  raise_if ((r.cycle == new.cycle) && not (same_equity r new))
  rest ← other_equity new (r.cycle ∷ seen) rows
  value (if r.cycle == new.cycle then rest else r ∷ rest)

-- `rows and ts < rows[-1].ts`
unfoldable pub precedes_last : Instant → List EquityRow → Bool
precedes_last ts [] = false
precedes_last ts (r ∷ []) = ltb ts r.ts
precedes_last ts (r ∷ s ∷ rows) = precedes_last ts (s ∷ rows)

-- `record_equity`
unfoldable pub record_equity : EquityRow → List (RowLine EquityRow) → Outcome (List EquityRow)
record_equity new lines = do
  rows ← jsonl_rows lines
  others ← other_equity new [] rows
  raise_if (precedes_last new.ts others)
  value (others ++ new ∷ [])
