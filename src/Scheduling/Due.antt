-- ===== src/Scheduling/Due.antt =====
-- The verdicts of `cycle_due` in futures_fund/scheduling.py.
use gpt_market_neutral_crypt.Prelude.{
  ℕ, ◌+◌, ◌*◌, ◌≤◌, ◌<◌, ◌≡◌, refl, ◌↔◌, ◌≢◌, ◌⊎◌, inl, inr, Option, none, some, [], ◌∷◌, Outcome,
  value, raised, ◌>>=◌, arith, All, Outcome-cases,
}
use gpt_market_neutral_crypt.Time.{Instant, epoch, minute_us, instant_max}
use gpt_market_neutral_crypt.Scheduling.{
  floor_tf, ReportFile, readable, Report, aware, served_candle, trusted_candle, Root, fresh, retry,
  skip, last_completed, decide, attempt, fail_safe, cycle_due,
}
use gpt_market_neutral_crypt.Scheduling.Grid.{floor_tf_same_cell}

-- `n` is the first directory that has a trusted candle, and `c` is that candle.
abbrev pub Completed : Instant → ℕ → Instant → Root → ℕ → Instant → Type 0
Completed now tf b [] n c = ⊥
Completed now tf b ((m, file) ∷ dirs) n c =
    ((trusted_candle file now tf b ≡ value (some c)) × (m ≡ n))
    ⊎ ((trusted_candle file now tf b ≡ value none) × Completed now tf b dirs n c)

pub last_completed-Completed :
    (dirs : Root) (now tf b n c : ℕ)
    → (last_completed dirs now tf b ≡ value (some (n, c))) ↔ Completed now tf b dirs n c
unfolding last_completed
last_completed-Completed [] now tf b n c = (λ h. cc, λ h. absurd h)
last_completed-Completed ((m, file) ∷ dirs) now tf b n c = (
  λ h. ground (arith, last_completed-Completed dirs now tf b n c),
  λ h. ground (arith, last_completed-Completed dirs now tf b n c),
)

-- What the scan found, read back from the verdict.
skip_inversion :
    (m b n : ℕ) (last : Outcome (Option (ℕ × Instant)))
    → fail_safe (last >>= λ found. value (decide m b found)) ≡ (skip, n)
    → (c : Instant) × (last ≡ value (some (n, c))) × (b ≤ c)
unfolding decide
skip_inversion m b n raised e = ground arith
skip_inversion m b n (value none) e = ground arith
skip_inversion m b n (value (some (k, c))) e = (c, ground arith, ground arith)

-- If the candle of `now` is defined, `cycle_due` answers SKIP with `n` exactly if directory `n` is
-- the first with a trusted report and that report serves the candle of `now` or a later one.
pub cycle_due-skip :
    (dirs : Root) (now tf n b : ℕ)
    → floor_tf now tf ≡ value b
    → (cycle_due dirs now tf ≡ (skip, n)) ↔ ((c : Instant) × Completed now tf b dirs n c × (b ≤ c))
unfolding cycle_due
cycle_due-skip [] now tf n b h = (λ e. ground arith, λ e. absurd e.1)
cycle_due-skip ((m, file) ∷ dirs) now tf n b h =
    let root : Root = (m, file) ∷ dirs in
    (
      λ e.
          let found = skip_inversion m b n (last_completed root now tf b) (ground arith) in
          (found.0, (last_completed-Completed root now tf b n found.0).0 found.1, found.2),
      λ e. let found = (last_completed-Completed root now tf b n e.0).1 e.1 in ground arith,
    )

-- The directories stand highest first.
abbrev pub IsDescending : Root → Type 0
IsDescending [] = Unit
IsDescending ((m, file) ∷ dirs) = All (λ (d : ℕ × ReportFile). d.0 < m) dirs × IsDescending dirs

Completed-le :
    (dirs : Root) (now tf b n c k : ℕ)
    → Completed now tf b dirs n c
    → All (λ (d : ℕ × ReportFile). d.0 < k) dirs
    → n < k
Completed-le [] now tf b n c k h all = absurd h
Completed-le ((m, file) ∷ dirs) now tf b n c k (inl h) all = omega arith
Completed-le ((m, file) ∷ dirs) now tf b n c k (inr h) all =
    Completed-le dirs now tf b n c k h.1 all.1

All-lt_trans :
    (dirs : Root) (m n : ℕ)
    → m ≤ n
    → All (λ (d : ℕ × ReportFile). d.0 < m) dirs
    → All (λ (d : ℕ × ReportFile). d.0 < n) dirs
All-lt_trans [] m n h all = tt
All-lt_trans (d ∷ dirs) m n h all = (omega arith, All-lt_trans dirs m n h all.1)

fresh_inversion :
    (m b n : ℕ) (last : Outcome (Option (ℕ × Instant)))
    → (last >>= λ found. value (decide m b found)) ≡ value (fresh, n)
    → (k c : ℕ) × (last ≡ value (some (k, c))) × (c < b) × (m ≤ k) × (n ≡ m + 1)
unfolding decide
fresh_inversion m b n raised e = ground arith
fresh_inversion m b n (value none) e = ground arith
fresh_inversion m b n (value (some (k, c))) e =
    (k, c, ground arith, ground arith, ground arith, ground arith)

-- If the directories stand highest first and no call raises, the number of a FRESH verdict is
-- above every directory's.
attempt-fresh :
    (dirs : Root) (now tf n : ℕ)
    → IsDescending dirs
    → attempt dirs now tf ≡ value (fresh, n)
    → All (λ (d : ℕ × ReportFile). d.0 < n) dirs
unfolding attempt
attempt-fresh [] now tf n h e = tt
attempt-fresh ((m, file) ∷ dirs) now tf n h e = elim (Outcome-cases (floor_tf now tf)) [
  | inl r ↦ absurd (ground arith)
  | inr (b, f) ↦
      let found =
        fresh_inversion m b n (last_completed ((m, file) ∷ dirs) now tf b) (ground arith) in
      let top : n ≡ m + 1 = found.5 in (omega arith, All-lt_trans dirs m n (omega arith) h.0)
]

-- If the highest directory's report names the candle of `now`, which is not before the epoch and
-- whose end is a representable instant, every poll within that candle answers SKIP with that
-- directory, whatever the other directories hold.
pub cycle_due-after_serving :
    (dirs : Root) (n now now' tf b : ℕ) (r : Report)
    → epoch ≤ now
    → floor_tf now tf ≡ value b
    → b + tf * minute_us ≤ instant_max
    → r.candle ≡ aware b
    → b ≤ now'
    → now' < b + tf * minute_us
    → cycle_due ((n, readable r) ∷ dirs) now' tf ≡ (skip, n)
unfolding cycle_due last_completed trusted_candle served_candle
cycle_due-after_serving dirs n now now' tf b r e f room served lo hi =
    ground (arith, floor_tf_same_cell now now' tf b e f lo hi)

-- If the highest directory's report names a candle before that of `now`, and the end of the latter
-- is a representable instant, the verdict is FRESH with the next number.
cycle_due-next_candle :
    (dirs : Root) (n now tf b c : ℕ) (r : Report)
    → floor_tf now tf ≡ value b
    → b + tf * minute_us ≤ instant_max
    → r.candle ≡ aware c
    → c < b
    → cycle_due ((n, readable r) ∷ dirs) now tf ≡ (fresh, n + 1)
unfolding cycle_due last_completed trusted_candle served_candle
cycle_due-next_candle dirs n now tf b c r f room served lo = ground arith

-- If the highest directory has no trusted report, the scan of the others does not raise, and the
-- first trusted report among them, if any, serves a candle before that of `now`, the verdict is
-- RETRY with the highest directory.
pub cycle_due-crashed :
    (dirs : Root) (n now tf b : ℕ) (file : ReportFile)
    → floor_tf now tf ≡ value b
    → trusted_candle file now tf b ≡ value none
    → All (λ (d : ℕ × ReportFile). d.0 < n) dirs
    → last_completed dirs now tf b ≢ raised
    → ((k c : ℕ) → Completed now tf b dirs k c → c < b)
    → cycle_due ((n, file) ∷ dirs) now tf ≡ (retry, n)
unfolding cycle_due last_completed
cycle_due-crashed dirs n now tf b file f crashed below safe unserved =
    ground (arith, go (last_completed dirs now tf b) refl)
  where
    go :
        (l : Outcome (Option (ℕ × Instant)))
        → last_completed dirs now tf b ≡ l
        → (l ≡ value none) ⊎ ((k c : ℕ) × (l ≡ value (some (k, c))) × (k < n) × (c < b))
    go raised e = absurd (safe e)
    go (value none) e = inl refl
    go (value (some (k, c))) e =
        let done = (last_completed-Completed dirs now tf b k c).0 e in
        inr (k, c, refl, Completed-le dirs now tf b k c n done below, unserved k c done)
