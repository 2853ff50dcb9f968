-- ===== src/Ledger/Appending.antt =====
-- `append_ledger` of futures_fund/reconcile_commit.py as a whole.
use gpt_market_neutral_crypt.Prelude.{
  ℕ, ◌<◌, ◌≡◌, ◌≢◌, refl, ◌⊎◌, inl, inr, none, some, List, [], ◌∷◌, ◌++◌, arith, sym, ap, subst,
  ◌∙◌, All, value, >>=-eq-value, eq_iff, Bool-cases, Outcome-cases, ◌==◌, if◌then◌else◌,
}
use gpt_market_neutral_crypt.Ledger.{
  LedgerRow, RowLine, jsonl_rows, other_rows, insert_row, sort_rows, append_ledger,
}
use gpt_market_neutral_crypt.Ledger.Rows.{
  IsAscending, row_of, file_of, NoCycle, DistinctCycles, Unseen, sort_rows-IsAscending,
  row_of-sort_rows, other_rows-Unseen, other_rows-row_of, other_rows_self,
}

append-DistinctCycles :
    (r : LedgerRow) (rows : List LedgerRow)
    → DistinctCycles rows
    → NoCycle r.cycle rows
    → DistinctCycles (rows ++ r ∷ [])
append-DistinctCycles r [] d n = (tt, tt)
append-DistinctCycles r (x ∷ rows) d n = (go rows d.0, append-DistinctCycles r rows d.1 n.1)
  where
    go : (ys : List LedgerRow) → NoCycle x.cycle ys → NoCycle x.cycle (ys ++ r ∷ [])
    go [] m = ((λ e. n.0 (sym e)), tt)
    go (y ∷ ys) m = (m.0, go ys m.1)

row_of-append_self :
    (r : LedgerRow) (rows : List LedgerRow)
    → NoCycle r.cycle rows
    → row_of r.cycle (rows ++ r ∷ []) ≡ some r
unfolding row_of
row_of-append_self r [] n = ground arith
row_of-append_self r (x ∷ rows) n = ground (arith, row_of-append_self r rows n.1)

row_of-append_ne :
    (r : LedgerRow) (rows : List LedgerRow) (c : ℕ)
    → c ≢ r.cycle
    → row_of c (rows ++ r ∷ []) ≡ row_of c rows
unfolding row_of
row_of-append_ne r [] c n = ground arith
row_of-append_ne r (x ∷ rows) c n = ground (arith, row_of-append_ne r rows c n)

append_inversion :
    (r : LedgerRow) (lines : List (RowLine LedgerRow)) (rows rows' : List LedgerRow)
    → jsonl_rows lines ≡ value rows
    → append_ledger r lines ≡ value rows'
    → (others : List LedgerRow) × (other_rows r [] rows ≡ value others)
      × (rows' ≡ sort_rows (others ++ r ∷ []))
unfolding append_ledger
append_inversion r lines rows rows' read h = elim (Outcome-cases (other_rows r [] rows)) [
  | inl e ↦ absurd (ground arith)
  | inr (others, e) ↦ (others, e, ground arith)
]

-- A successful append leaves the rows in strictly ascending cycle order, holds the record under
-- its cycle, keeps the row of every other cycle, and has found no different row of that cycle.
pub append_ledger_lem :
    (r : LedgerRow) (lines : List (RowLine LedgerRow)) (rows rows' : List LedgerRow)
    → jsonl_rows lines ≡ value rows
    → append_ledger r lines ≡ value rows'
    → IsAscending rows'
      × (row_of r.cycle rows' ≡ some r)
      × ((c : ℕ) → c ≢ r.cycle → row_of c rows' ≡ row_of c rows)
      × ((row_of r.cycle rows ≡ none) ⊎ (row_of r.cycle rows ≡ some r))
append_ledger_lem r lines rows rows' read h =
    let (others, o, last) = append_inversion r lines rows rows' read h in
    let (unseen, distinct, apart) = other_rows-Unseen r [] rows others o in
    let all_distinct = append-DistinctCycles r others distinct apart in
    (
      subst IsAscending (sym last) (sort_rows-IsAscending (others ++ r ∷ []) all_distinct),
      ap (row_of r.cycle) last
          ∙ row_of-sort_rows r.cycle (others ++ r ∷ []) all_distinct
          ∙ row_of-append_self r others apart,
      (λ c ne.
          ap (row_of c) last
          ∙ row_of-sort_rows c (others ++ r ∷ []) all_distinct
          ∙ row_of-append_ne r others c ne
          ∙ other_rows-row_of r [] rows others c ne o),
      other_rows_self r [] rows others o,
    )

-- The rows without a cycle.
without : ℕ → List LedgerRow → List LedgerRow
without c [] = []
without c (x ∷ rows) = let rest = without c rows in if x.cycle == c then rest else x ∷ rest

insert_row-low :
    (r : LedgerRow) (rows : List LedgerRow)
    → All (λ (x : LedgerRow). r.cycle < x.cycle) rows
    → insert_row r rows ≡ r ∷ rows
unfolding insert_row
insert_row-low r [] h = refl
insert_row-low r (x ∷ rows) h = ground arith

sort_rows-low :
    (r : LedgerRow) (rows : List LedgerRow)
    → IsAscending rows
    → All (λ (x : LedgerRow). r.cycle < x.cycle) rows
    → sort_rows (rows ++ r ∷ []) ≡ r ∷ rows
unfolding sort_rows insert_row
sort_rows-low r [] a h = refl
sort_rows-low r (x ∷ rows) a h =
    rw (sort_rows-low r rows a.1 h.1) (ground (arith, insert_row-low x rows a.0))

above-NoCycle :
    (c : ℕ) (rows : List LedgerRow) → All (λ (x : LedgerRow). c < x.cycle) rows → NoCycle c rows
above-NoCycle c [] h = tt
above-NoCycle c (x ∷ rows) h = (omega arith, above-NoCycle c rows h.1)

without-NoCycle : (c : ℕ) (rows : List LedgerRow) → NoCycle c rows → without c rows ≡ rows
unfolding without
without-NoCycle c [] n = refl
without-NoCycle c (x ∷ rows) n = ground (arith, without-NoCycle c rows n.1)

-- Taking the record out of an ascending file and sorting it in again changes nothing.
sort_rows-without :
    (r : LedgerRow) (rows : List LedgerRow)
    → IsAscending rows
    → row_of r.cycle rows ≡ some r
    → sort_rows (without r.cycle rows ++ r ∷ []) ≡ rows
unfolding row_of without sort_rows
sort_rows-without r [] a h = cc
sort_rows-without r (x ∷ rows) a h = elim (Bool-cases (x.cycle == r.cycle)) [
  | inl t ↦
      let head : x ≡ r = ground arith in
      let above : All (λ (y : LedgerRow). r.cycle < y.cycle) rows = rw (← head) a.0 in
      rw (t, without-NoCycle r.cycle rows (above-NoCycle r.cycle rows above))
        (sort_rows-low r rows a.1 above ∙ ap (λ (y : LedgerRow). y ∷ rows) (sym head))
  | inr f ↦ rw (f, sort_rows-without r rows a.1 (ground arith)) (insert_row-low x rows a.0)
]

jsonl_rows-file_of : (rows : List LedgerRow) → jsonl_rows (file_of rows) ≡ value rows
unfolding jsonl_rows
jsonl_rows-file_of [] = refl
jsonl_rows-file_of (r ∷ rows) = rw (jsonl_rows-file_of rows)

seen_more :
    (c : ℕ) (seen : List ℕ) (rows : List LedgerRow)
    → All (λ (y : LedgerRow). c < y.cycle) rows
    → Unseen seen rows
    → Unseen (c ∷ seen) rows
seen_more c seen [] a u = tt
seen_more c seen (y ∷ rows) a u = (ground arith, seen_more c seen rows a.1 u.1)

Unseen-nil : (rows : List LedgerRow) → Unseen [] rows
Unseen-nil [] = tt
Unseen-nil (y ∷ rows) = (refl, Unseen-nil rows)

row_of-NoCycle : (c : ℕ) (rows : List LedgerRow) → NoCycle c rows → row_of c rows ≡ none
unfolding row_of
row_of-NoCycle c [] n = refl
row_of-NoCycle c (y ∷ rows) n = ground (arith, row_of-NoCycle c rows n.1)

row_of-rest :
    (r x : LedgerRow) (rows : List LedgerRow)
    → All (λ (y : LedgerRow). x.cycle < y.cycle) rows
    → (row_of r.cycle (x ∷ rows) ≡ none) ⊎ (row_of r.cycle (x ∷ rows) ≡ some r)
    → (row_of r.cycle rows ≡ none) ⊎ (row_of r.cycle rows ≡ some r)
row_of-rest r x rows above h = elim (Bool-cases (x.cycle == r.cycle)) [
  | inl t ↦
      let same : x.cycle ≡ r.cycle = ground arith in
      inl (row_of-NoCycle r.cycle rows (above-NoCycle r.cycle rows (rw (← same) above)))
  | inr f ↦ unfold row_of in ground arith
]

-- On an ascending file that holds the record, every row passes the tests.
other_rows-ascending :
    (r : LedgerRow) (seen : List ℕ) (rows : List LedgerRow)
    → IsAscending rows
    → Unseen seen rows
    → (row_of r.cycle rows ≡ none) ⊎ (row_of r.cycle rows ≡ some r)
    → other_rows r seen rows ≡ value (without r.cycle rows)
unfolding other_rows without row_of
other_rows-ascending r seen [] a u h = refl
other_rows-ascending r seen (x ∷ rows) a u h =
    let later =
      other_rows-ascending r (x.cycle ∷ seen) rows a.1 (seen_more x.cycle seen rows a.0 u.1)
        (row_of-rest r x rows a.0 h) in
    ground (arith, later, u.0, (eq_iff x.text r.text).1, h)

-- Appending the same record again to the file that an append has written changes nothing.
pub append_ledger_replay :
    (r : LedgerRow) (lines : List (RowLine LedgerRow)) (rows : List LedgerRow)
    → append_ledger r lines ≡ value rows
    → append_ledger r (file_of rows) ≡ value rows
unfolding append_ledger
append_ledger_replay r lines rows h =
    let (before, read, rest) = >>=-eq-value (jsonl_rows lines) _ h in
    let (ascending, held, _, _) = append_ledger_lem r lines before rows read h in
    rw
      (
        jsonl_rows-file_of rows,
        other_rows-ascending r [] rows ascending (Unseen-nil rows) (inr held),
      )
      (ap value (sort_rows-without r rows ascending held))
