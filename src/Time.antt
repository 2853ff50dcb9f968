-- ===== src/Time.antt =====
-- Instants of time, as the desk's modules use Python's aware UTC `datetime`: microseconds since
-- 0001-01-01T00:00:00Z, the first instant that `datetime` can hold. A result outside its range
-- raises OverflowError.
use gpt_market_neutral_crypt.Prelude.{ℕ, ◌+◌, ◌-◌, ◌*◌, Outcome, value, raised, leb, if◌then◌else◌}

abbrev pub Instant : Type 0
Instant = ℕ

abbrev pub minute_us : ℕ
minute_us = 60_000_000

abbrev pub hour_us : ℕ
hour_us = 3_600_000_000

abbrev pub day_us : ℕ
day_us = 86_400_000_000

-- 1970-01-01T00:00Z, day 719162 of the calendar.
abbrev pub epoch : Instant
epoch = 719_162 * day_us

-- 9999-12-31T23:59:59.999999Z
abbrev pub instant_max : Instant
instant_max = 3_652_059 * day_us - 1

abbrev pub add_us : Instant → ℕ → Outcome Instant
add_us t d = if leb (t + d) instant_max then value (t + d) else raised

abbrev pub sub_us : Instant → ℕ → Outcome Instant
sub_us t d = if leb d t then value (t - d) else raised
