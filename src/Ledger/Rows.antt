-- ===== src/Ledger/Rows.antt =====
-- `append_ledger` of futures_fund/reconcile_commit.py: order, immutability, idempotence.
use gpt_market_neutral_crypt.Prelude.{
  ℕ, ◌<◌, ◌≤◌, ◌≡◌, ◌≢◌, refl, ◌⊎◌, inl, inr, false, Option, none, some, List, [], ◌∷◌, arith, sym,
  ap, subst, ◌∙◌, All, value, eq_iff, Bool-cases, Outcome-cases, leb, ◌==◌, if◌then◌else◌,
  value-injective,
}
use gpt_market_neutral_crypt.Ledger.{
  LedgerRow, RowLine, row, has_cycle, other_rows, insert_row, sort_rows,
}

-- Cycles strictly increase.
abbrev pub IsAscending : List LedgerRow → Type 0
IsAscending [] = Unit
IsAscending (r ∷ rows) = All (λ (x : LedgerRow). r.cycle < x.cycle) rows × IsAscending rows

-- The row of a cycle.
unfoldable pub row_of : ℕ → List LedgerRow → Option LedgerRow
row_of c [] = none
row_of c (r ∷ rows) = if r.cycle == c then some r else row_of c rows

-- The file that holds the rows.
abbrev pub file_of {ℓ} : {A : Type ℓ} → List A → List (RowLine A)
file_of [] = []
file_of (r ∷ rows) = row r ∷ file_of rows

abbrev pub NoCycle : ℕ → List LedgerRow → Type 0
NoCycle c rows = All (λ (x : LedgerRow). x.cycle ≢ c) rows

-- No cycle twice.
abbrev pub DistinctCycles : List LedgerRow → Type 0
DistinctCycles [] = Unit
DistinctCycles (r ∷ rows) = NoCycle r.cycle rows × DistinctCycles rows

pub insert_row-above :
    (r : LedgerRow) (rows : List LedgerRow) (c : ℕ)
    → c < r.cycle
    → All (λ (x : LedgerRow). c < x.cycle) rows
    → All (λ (x : LedgerRow). c < x.cycle) (insert_row r rows)
unfolding insert_row
insert_row-above r [] c h all = (h, tt)
insert_row-above r (x ∷ rows) c h all = ground (arith, insert_row-above r rows c h all.1)

pub above_trans :
    (rows : List LedgerRow) (c d : ℕ)
    → c ≤ d
    → All (λ (x : LedgerRow). d < x.cycle) rows
    → All (λ (x : LedgerRow). c < x.cycle) rows
above_trans [] c d h all = tt
above_trans (x ∷ rows) c d h all = (omega arith, above_trans rows c d h all.1)

insert_row-IsAscending :
    (r : LedgerRow) (rows : List LedgerRow)
    → NoCycle r.cycle rows
    → IsAscending rows
    → IsAscending (insert_row r rows)
unfolding insert_row
insert_row-IsAscending r [] n a = (tt, tt)
insert_row-IsAscending r (x ∷ rows) n a = elim (Bool-cases (leb r.cycle x.cycle)) [
  | inl t ↦ rw t ((ground arith, above_trans rows r.cycle x.cycle (ground arith) a.0), a)
  | inr f ↦
      rw f
        (insert_row-above r rows x.cycle (ground arith) a.0, insert_row-IsAscending r rows n.1 a.1)
]

insert_row-NoCycle :
    (r : LedgerRow) (rows : List LedgerRow) (c : ℕ)
    → r.cycle ≢ c
    → NoCycle c rows
    → NoCycle c (insert_row r rows)
unfolding insert_row
insert_row-NoCycle r [] c h n = (h, tt)
insert_row-NoCycle r (x ∷ rows) c h n = ground (arith, insert_row-NoCycle r rows c h n.1)

sort_rows-NoCycle : (rows : List LedgerRow) (c : ℕ) → NoCycle c rows → NoCycle c (sort_rows rows)
unfolding sort_rows
sort_rows-NoCycle [] c n = tt
sort_rows-NoCycle (r ∷ rows) c n =
    insert_row-NoCycle r (sort_rows rows) c n.0 (sort_rows-NoCycle rows c n.1)

pub sort_rows-IsAscending :
    (rows : List LedgerRow) → DistinctCycles rows → IsAscending (sort_rows rows)
unfolding sort_rows
sort_rows-IsAscending [] d = tt
sort_rows-IsAscending (r ∷ rows) d =
    insert_row-IsAscending r (sort_rows rows) (sort_rows-NoCycle rows r.cycle d.0)
      (sort_rows-IsAscending rows d.1)

row_of-insert_row :
    (c : ℕ) (r : LedgerRow) (rows : List LedgerRow)
    → NoCycle r.cycle rows
    → row_of c (insert_row r rows) ≡ (if r.cycle == c then some r else row_of c rows)
unfolding row_of insert_row
row_of-insert_row c r [] n = refl
row_of-insert_row c r (x ∷ rows) n = ground (arith, row_of-insert_row c r rows n.1)

pub row_of-sort_rows :
    (c : ℕ) (rows : List LedgerRow)
    → DistinctCycles rows
    → row_of c (sort_rows rows) ≡ row_of c rows
unfolding sort_rows row_of
row_of-sort_rows c [] d = refl
row_of-sort_rows c (r ∷ rows) d =
    row_of-insert_row c r (sort_rows rows) (sort_rows-NoCycle rows r.cycle d.0)
    ∙ ap (λ (o : Option LedgerRow). if r.cycle == c then some r else o)
        (row_of-sort_rows c rows d.1)

-- No row of the list has a cycle that was seen.
abbrev pub Unseen : List ℕ → List LedgerRow → Type 0
Unseen seen rows = All (λ (x : LedgerRow). has_cycle x.cycle seen ≡ false) rows

pub Unseen-tail :
    (c : ℕ) (seen : List ℕ) (rows : List LedgerRow)
    → Unseen (c ∷ seen) rows
    → NoCycle c rows × Unseen seen rows
Unseen-tail c seen [] u = (tt, tt)
Unseen-tail c seen (x ∷ rows) u =
    let (n, v) = Unseen-tail c seen rows u.1 in ((ground arith, n), (ground arith, v))

-- What one round of `other_rows` has tested.
other_rows_step :
    (r x : LedgerRow) (seen : List ℕ) (rows others : List LedgerRow)
    → other_rows r seen (x ∷ rows) ≡ value others
    → (rest : List LedgerRow) × (other_rows r (x.cycle ∷ seen) rows ≡ value rest)
      × (has_cycle x.cycle seen ≡ false)
      × (((x.cycle ≡ r.cycle) × (x.text ≡ r.text) × (others ≡ rest))
          ⊎ ((x.cycle ≢ r.cycle) × (others ≡ x ∷ rest)))
unfolding other_rows
other_rows_step r x seen rows others h = elim (Outcome-cases (other_rows r (x.cycle ∷ seen) rows)) [
  | inl e ↦ absurd (ground arith)
  | inr (rest, e) ↦ (rest, e, ground arith, ground (arith, eq_iff x.text r.text))
]

pub other_rows-Unseen :
    (r : LedgerRow) (seen : List ℕ) (rows others : List LedgerRow)
    → other_rows r seen rows ≡ value others
    → Unseen seen others × DistinctCycles others × NoCycle r.cycle others
unfolding other_rows
other_rows-Unseen r seen [] others h =
    subst (λ (o : List LedgerRow). Unseen seen o × DistinctCycles o × NoCycle r.cycle o)
      (value-injective h) (tt, tt, tt)
other_rows-Unseen r seen (x ∷ rows) others h =
    let (rest, e, new, cases) = other_rows_step r x seen rows others h in
    let (u, d, n) = other_rows-Unseen r (x.cycle ∷ seen) rows rest e in
    let (apart, unseen) = Unseen-tail x.cycle seen rest u in
    elim cases [
      | inl (_, _, same) ↦ rw same (unseen, d, n)
      | inr (ne, grown) ↦ rw grown ((new, unseen), (apart, d), (ne, n))
    ]

pub other_rows-row_of :
    (r : LedgerRow) (seen : List ℕ) (rows others : List LedgerRow) (c : ℕ)
    → c ≢ r.cycle
    → other_rows r seen rows ≡ value others
    → row_of c others ≡ row_of c rows
unfolding other_rows row_of
other_rows-row_of r seen [] others c ne h = ap (row_of c) (sym (value-injective h))
other_rows-row_of r seen (x ∷ rows) others c ne h =
    let (rest, e, new, cases) = other_rows_step r x seen rows others h in
    ground (arith, other_rows-row_of r (x.cycle ∷ seen) rows rest c ne e, cases)

-- A row of the record's cycle that was there already is the record.
pub other_rows_self :
    (r : LedgerRow) (seen : List ℕ) (rows others : List LedgerRow)
    → other_rows r seen rows ≡ value others
    → (row_of r.cycle rows ≡ none) ⊎ (row_of r.cycle rows ≡ some r)
unfolding other_rows row_of
other_rows_self r seen [] others h = inl refl
other_rows_self r seen (x ∷ rows) others h =
    let (rest, e, new, cases) = other_rows_step r x seen rows others h in
    let before = other_rows_self r (x.cycle ∷ seen) rows rest e in
    elim cases [ inl (same, text, _) ↦ inr (ground arith) | inr (ne, _) ↦ ground arith ]
