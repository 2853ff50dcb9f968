-- ===== src/Scheduling.antt =====
-- futures_fund/scheduling.py: the due-gate that decides whether a candle still needs a cycle.
-- A cycle root is the list of its numeric directories, each with what its report.json holds. An
-- ISO stamp is the instant that `datetime.fromisoformat` reads from it. The reason strings are
-- not modelled, and `tf_minutes` is not negative.
pub mod Grid
pub mod Due
mod Tests
use gpt_market_neutral_crypt.Prelude.{
  ℕ, ◌+◌, ◌-◌, ◌*◌, ◌/◌, Option, none, some, List, [], ◌∷◌, Outcome, value, raised, ◌>>=◌, ◌>>◌,
  ltb, leb, if◌then◌else◌, ◌==◌,
}
use gpt_market_neutral_crypt.Time.{Instant, epoch, minute_us, add_us, sub_us}

-- `(dt - _EPOCH) // step` rounds down, so an instant before the epoch is counted in whole steps
-- back from it. A zero step raises ZeroDivisionError.
pub floor_tf : Instant → ℕ → Outcome Instant
floor_tf dt tf_minutes =
    let step = tf_minutes * minute_us in
    if tf_minutes == 0
    then raised
    else if leb epoch dt
    then value (epoch + (dt - epoch) / step * step)
    else sub_us epoch ((epoch - dt + (step - 1)) / step * step)

-- A field of report.json: absent or no string, a string that is no ISO stamp, a stamp with no
-- offset, a stamp with one (at the instant that it stands for).
pub data Field : Type 0 where
  absent malformed : Field
  naive aware : Instant → Field

unfoldable pub parse_utc : Field → Option Instant
parse_utc absent = none
parse_utc malformed = none
parse_utc (naive t) = some t
parse_utc (aware t) = some t

pub record Report : Type 0 where
  pub ran_at : Field
  pub candle : Field
  pub decision_ts : Field
  pub mtime : Option Instant

-- `<n>/report.json`: not there, not read as a JSON object, or read.
pub data ReportFile : Type 0 where
  missing unreadable : ReportFile
  readable : Report → ReportFile

-- The future-stamp guard.
abbrev not_future : Instant → Option Instant → Option Instant
not_future now none = none
not_future now (some t) = if ltb now t then none else some t

-- The next source of the served candle, where no earlier one gave it.
or_floor : ℕ → Option Instant → Option Instant → Outcome (Option Instant)
or_floor tf (some c) t = value (some c)
or_floor tf none none = value none
or_floor tf none (some t) = do c ← floor_tf t tf; value (some c)

pub served_candle : ReportFile → Instant → ℕ → Outcome (Option Instant)
unfolding or_floor parse_utc
served_candle missing now tf = value none
served_candle unreadable now tf = value none
served_candle (readable r) now tf = do
  let ran_at = not_future now (parse_utc r.ran_at)
  from_decision ← or_floor tf (parse_utc r.candle) (parse_utc r.decision_ts)
  from_run ← or_floor tf from_decision ran_at
  or_floor tf from_run r.mtime

-- A cycle root: its directories by number, the highest first, as `sorted(…, reverse=True)`.
abbrev pub Root : Type 0
Root = List (ℕ × ReportFile)

pub data Mode : Type 0 where
  fresh retry skip : Mode

-- The candle of a directory, where its report serves one that lies at most a step ahead.
trusted : Instant → ℕ → Instant → Option Instant → Outcome (Option Instant)
trusted now tf boundary none = value none
trusted now tf boundary (some cand) = do
  limit ← add_us boundary (tf * minute_us)
  value (if ltb limit cand then none else some cand)

pub trusted_candle : ReportFile → Instant → ℕ → Instant → Outcome (Option Instant)
unfolding trusted
trusted_candle file now tf boundary = do
  served ← served_candle file now tf
  trusted now tf boundary served

-- The scan: the first directory that has a trusted candle.
pub last_completed : Root → Instant → ℕ → Instant → Outcome (Option (ℕ × Instant))
last_completed [] now tf boundary = value none
last_completed ((n, file) ∷ dirs) now tf boundary =
    let rest = last_completed dirs now tf boundary in
    trusted_candle file now tf boundary >>= λ served. elim served [
      | none ↦ rest
      | some cand ↦ value (some (n, cand))
    ]

decide : ℕ → Instant → Option (ℕ × Instant) → Mode × ℕ
decide highest boundary none = (retry, highest)
decide highest boundary (some (n, served)) =
    if leb boundary served
    then (skip, n)
    else if ltb n highest
    then (retry, highest)
    else (fresh, highest + 1)

pub attempt : Root → Instant → ℕ → Outcome (Mode × ℕ)
unfolding decide
attempt [] now tf = do floor_tf now tf; value (fresh, 1)
attempt ((highest, file) ∷ dirs) now tf = do
  boundary ← floor_tf now tf
  last ← last_completed ((highest, file) ∷ dirs) now tf boundary
  value (decide highest boundary last)

-- `except Exception: return ("FRESH", 1, …)`
abbrev fail_safe : Outcome (Mode × ℕ) → Mode × ℕ
fail_safe (value r) = r
fail_safe raised = (fresh, 1)

pub cycle_due : Root → Instant → ℕ → Mode × ℕ
unfolding attempt
cycle_due dirs now tf = fail_safe (attempt dirs now tf)
