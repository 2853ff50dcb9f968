-- ===== src/Ledger/Equity.antt =====
-- `record_equity` of futures_fund/reconcile_commit.py as a whole.
use gpt_market_neutral_crypt.Prelude.{
  All-append, Option, none, some, ℕ, ◌≤◌, ◌≡◌, ◌≢◌, refl, true, false, List, [], ◌∷◌, ◌++◌, arith,
  sym, subst, ◌⊎◌, inl, inr, value, >>=-eq-value, eq_iff, Outcome-cases, value-injective, All,
  if◌then◌else◌, ◌∙◌, ap, ◌==◌,
}
use gpt_market_neutral_crypt.Time.{Instant}
use gpt_market_neutral_crypt.Ledger.{
  EquityRow, RowLine, jsonl_rows, has_cycle, same_equity, other_equity, precedes_last,
  record_equity,
}
use gpt_market_neutral_crypt.Ledger.Rows.{file_of}

-- The rows of the other cycles, and none of them twice.
abbrev pub Apart : EquityRow → List ℕ → List EquityRow → Type 0
Apart new seen [] = Unit
Apart new seen (r ∷ rows) =
    (has_cycle r.cycle seen ≡ false) × (r.cycle ≢ new.cycle) × Apart new (r.cycle ∷ seen) rows

same_equity_refl : (r : EquityRow) → same_equity r r ≡ true
unfolding same_equity
same_equity_refl r = ground (arith, (eq_iff r.equity r.equity).1 refl)

-- What one round of `other_equity` has tested.
other_equity_step :
    (new r : EquityRow) (seen : List ℕ) (rows others : List EquityRow)
    → other_equity new seen (r ∷ rows) ≡ value others
    → (rest : List EquityRow) × (other_equity new (r.cycle ∷ seen) rows ≡ value rest)
      × (has_cycle r.cycle seen ≡ false)
      × (((r.cycle ≡ new.cycle) × (others ≡ rest)) ⊎ ((r.cycle ≢ new.cycle) × (others ≡ r ∷ rest)))
unfolding other_equity
other_equity_step new r seen rows others h =
    elim (Outcome-cases (other_equity new (r.cycle ∷ seen) rows)) [
      | inl e ↦ absurd (ground arith)
      | inr (rest, e) ↦ (rest, e, ground arith, ground arith)
    ]

Apart-fewer :
    (new : EquityRow) (c : ℕ) (seen : List ℕ) (rows : List EquityRow)
    → Apart new (c ∷ seen) rows
    → Apart new seen rows
Apart-fewer new c seen [] a = tt
Apart-fewer new c seen (r ∷ rows) a = (
  ground arith,
  a.1,
  Apart-mono new (r.cycle ∷ c ∷ seen) (r.cycle ∷ seen) rows (λ x h. ground (arith, h)) a.2,
)
  where
    Apart-mono :
        (new : EquityRow) (seen fewer : List ℕ) (rows : List EquityRow)
        → ((x : ℕ) → has_cycle x seen ≡ false → has_cycle x fewer ≡ false)
        → Apart new seen rows
        → Apart new fewer rows
    Apart-mono new seen fewer [] sub a = tt
    Apart-mono new seen fewer (r ∷ rows) sub a = (
      sub r.cycle a.0,
      a.1,
      Apart-mono new (r.cycle ∷ seen) (r.cycle ∷ fewer) rows (λ x h. ground (arith, sub x)) a.2,
    )

other_equity-Apart :
    (new : EquityRow) (seen : List ℕ) (rows others : List EquityRow)
    → other_equity new seen rows ≡ value others
    → Apart new seen others
unfolding other_equity
other_equity-Apart new seen [] others h = subst (Apart new seen) (value-injective h) tt
other_equity-Apart new seen (r ∷ rows) others h =
    let (rest, e, fresh, cases) = other_equity_step new r seen rows others h in
    let apart = other_equity-Apart new (r.cycle ∷ seen) rows rest e in
    elim cases [
      | inl (_, same) ↦ subst (Apart new seen) (sym same) (Apart-fewer new r.cycle seen rest apart)
      | inr (ne, grown) ↦ subst (Apart new seen) (sym grown) (fresh, ne, apart)
    ]

-- The rows of the other cycles are found again behind the new row.
other_equity_again :
    (new : EquityRow) (seen : List ℕ) (others : List EquityRow)
    → Apart new seen others
    → has_cycle new.cycle seen ≡ false
    → other_equity new seen (others ++ new ∷ []) ≡ value others
unfolding other_equity
other_equity_again new seen [] a fresh = ground (arith, same_equity_refl new)
other_equity_again new seen (r ∷ others) a fresh =
    ground (arith, other_equity_again new (r.cycle ∷ seen) others a.2 (ground arith))

jsonl_rows-file_of : (rows : List EquityRow) → jsonl_rows (file_of rows) ≡ value rows
unfolding jsonl_rows
jsonl_rows-file_of [] = refl
jsonl_rows-file_of (r ∷ rows) = rw (jsonl_rows-file_of rows)

-- What a successful call has read.
record_equity_inversion :
    (new : EquityRow) (lines : List (RowLine EquityRow)) (rows : List EquityRow)
    → record_equity new lines ≡ value rows
    → (before others : List EquityRow) × (jsonl_rows lines ≡ value before)
      × (other_equity new [] before ≡ value others)
      × (precedes_last new.ts others ≡ false)
      × (rows ≡ others ++ new ∷ [])
unfolding record_equity
record_equity_inversion new lines rows h =
    let (before, read, h1) = >>=-eq-value (jsonl_rows lines) _ h in
    let (others, found, h2) = >>=-eq-value (other_equity new [] before) _ h1 in
    (before, others, read, found, ground arith, ground arith)

-- Recording the same row again in the file that a call has written changes nothing.
pub record_equity_replay :
    (new : EquityRow) (lines : List (RowLine EquityRow)) (rows : List EquityRow)
    → record_equity new lines ≡ value rows
    → record_equity new (file_of rows) ≡ value rows
unfolding record_equity
record_equity_replay new lines rows h =
    let (before, others, read, found, late, last) = record_equity_inversion new lines rows h in
    let again =
      other_equity_again new [] others (other_equity-Apart new [] before others found) refl in
    rw (last, jsonl_rows-file_of (others ++ new ∷ []), again, late) refl

-- The times of the rows do not decrease.
abbrev pub IsMonotonic : List EquityRow → Type 0
IsMonotonic [] = Unit
IsMonotonic (r ∷ rows) = All (λ (x : EquityRow). r.ts ≤ x.ts) rows × IsMonotonic rows

-- The row of a cycle.
unfoldable pub equity_of : ℕ → List EquityRow → Option EquityRow
equity_of c [] = none
equity_of c (r ∷ rows) = if r.cycle == c then some r else equity_of c rows

precedes_last-All :
    (ts : Instant) (rows : List EquityRow)
    → IsMonotonic rows
    → precedes_last ts rows ≡ false
    → All (λ (x : EquityRow). x.ts ≤ ts) rows
unfolding precedes_last
precedes_last-All ts [] m h = tt
precedes_last-All ts (r ∷ []) m h = (ground arith, tt)
precedes_last-All ts (r ∷ s ∷ rows) m h =
    let later = precedes_last-All ts (s ∷ rows) m.1 h in (omega arith, later)

append-IsMonotonic :
    (new : EquityRow) (rows : List EquityRow)
    → IsMonotonic rows
    → All (λ (x : EquityRow). x.ts ≤ new.ts) rows
    → IsMonotonic (rows ++ new ∷ [])
append-IsMonotonic new [] m h = (tt, tt)
append-IsMonotonic new (r ∷ rows) m h =
    (All-append _ rows (new ∷ []) m.0 (h.0, tt), append-IsMonotonic new rows m.1 h.1)

-- What holds of all rows holds of the rows of the other cycles.
other_equity-All :
    (P : EquityRow → Type 0) (new : EquityRow) (seen : List ℕ) (rows others : List EquityRow)
    → other_equity new seen rows ≡ value others
    → All P rows
    → All P others
unfolding other_equity
other_equity-All P new seen [] others h all = subst (All P) (value-injective h) tt
other_equity-All P new seen (r ∷ rows) others h all =
    let (rest, e, fresh, cases) = other_equity_step new r seen rows others h in
    let later = other_equity-All P new (r.cycle ∷ seen) rows rest e all.1 in
    elim cases [
      | inl (_, same) ↦ subst (All P) (sym same) later
      | inr (_, grown) ↦ subst (All P) (sym grown) (all.0, later)
    ]

other_equity-IsMonotonic :
    (new : EquityRow) (seen : List ℕ) (rows others : List EquityRow)
    → other_equity new seen rows ≡ value others
    → IsMonotonic rows
    → IsMonotonic others
unfolding other_equity
other_equity-IsMonotonic new seen [] others h m = subst IsMonotonic (value-injective h) tt
other_equity-IsMonotonic new seen (r ∷ rows) others h m =
    let (rest, e, fresh, cases) = other_equity_step new r seen rows others h in
    let later = other_equity-IsMonotonic new (r.cycle ∷ seen) rows rest e m.1 in
    let above =
      other_equity-All (λ (x : EquityRow). r.ts ≤ x.ts) new (r.cycle ∷ seen) rows rest e m.0 in
    elim cases [
      | inl (_, same) ↦ subst IsMonotonic (sym same) later
      | inr (_, grown) ↦ subst IsMonotonic (sym grown) (above, later)
    ]

-- The row of another cycle is kept.
other_equity-equity_of :
    (new : EquityRow) (seen : List ℕ) (rows others : List EquityRow) (c : ℕ)
    → c ≢ new.cycle
    → other_equity new seen rows ≡ value others
    → equity_of c (others ++ new ∷ []) ≡ equity_of c rows
unfolding other_equity equity_of
other_equity-equity_of new seen [] others c ne h =
    subst (λ (xs : List EquityRow). equity_of c (xs ++ new ∷ []) ≡ none) (value-injective h)
      (ground arith)
other_equity-equity_of new seen (r ∷ rows) others c ne h =
    let (rest, e, fresh, cases) = other_equity_step new r seen rows others h in
    let later = other_equity-equity_of new (r.cycle ∷ seen) rows rest c ne e in
    elim cases [
      | inl (own, same) ↦
          subst (λ (xs : List EquityRow). equity_of c (xs ++ new ∷ []) ≡ equity_of c (r ∷ rows))
            (sym same) (ground arith)
      | inr (_, grown) ↦
          subst (λ (xs : List EquityRow). equity_of c (xs ++ new ∷ []) ≡ equity_of c (r ∷ rows))
            (sym grown) (ground arith)
    ]

equity_of-new :
    (new : EquityRow) (others : List EquityRow) (seen : List ℕ)
    → Apart new seen others
    → equity_of new.cycle (others ++ new ∷ []) ≡ some new
unfolding equity_of
equity_of-new new [] seen a = ground arith
equity_of-new new (r ∷ others) seen a =
    ground (arith, equity_of-new new others (r.cycle ∷ seen) a.2)

-- A successful call on rows in order of time leaves rows in order of time, holds the new row under its cycle, and keeps
-- the row of every other cycle.
pub record_equity_lem :
    (new : EquityRow) (lines : List (RowLine EquityRow)) (before rows : List EquityRow)
    → jsonl_rows lines ≡ value before
    → record_equity new lines ≡ value rows
    → (IsMonotonic before → IsMonotonic rows)
      × (equity_of new.cycle rows ≡ some new)
      × ((c : ℕ) → c ≢ new.cycle → equity_of c rows ≡ equity_of c before)
record_equity_lem new lines before rows read h =
    let (before', others, read', found', late, last) = record_equity_inversion new lines rows h in
    let eq : before' ≡ before = value-injective (sym read' ∙ read) in
    let found = subst (λ (xs : List EquityRow). other_equity new [] xs ≡ value others) eq found' in
    (
      (λ m.
          let kept = other_equity-IsMonotonic new [] before others found m in
          subst IsMonotonic (sym last)
            (append-IsMonotonic new others kept (precedes_last-All new.ts others kept late))),
      ap (equity_of new.cycle) last
          ∙ equity_of-new new others [] (other_equity-Apart new [] before others found),
      (λ c ne. ap (equity_of c) last ∙ other_equity-equity_of new [] before others c ne found),
    )
