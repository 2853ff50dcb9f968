-- ===== src/Gate.antt =====
-- scripts/desk_schedule_gate.py: the claim-once gate between cron's polls and the desk's tasks.
-- Instants are UTC. `grace` is the grace period in microseconds, 0 standing for one that is not
-- positive. The claims file is what `read_claims` finds; a failing write (OSError) is not modelled.
pub mod Slots
pub mod Claiming
pub mod Running
mod Tests
use gpt_market_neutral_crypt.Prelude.{
  ℕ, ◌+◌, ◌-◌, ◌*◌, ◌/◌, Bool, true, false, ◌&&◌, ◌||◌, not, Option, none, some, List, [], ◌∷◌,
  Outcome, value, raised, ◌>>=◌, ◌>>◌, raise_if, leb, ltb, ◌==◌, if◌then◌else◌, map,
}
use gpt_market_neutral_crypt.Time.{Instant, minute_us, hour_us, day_us, sub_us}

pub data Kind : Type 0 where
  full heartbeat : Kind

unfoldable pub schedule_hours : Kind → List ℕ
schedule_hours full = 0 ∷ []
schedule_hours heartbeat = 8 ∷ 16 ∷ []

-- `now.replace(hour=hour, minute=7, second=0, microsecond=0)`
abbrev pub slot_of : Instant → ℕ → Instant
slot_of now hour = now / day_us * day_us + hour * hour_us + 7 * minute_us

-- `max` of those that are not after `now`.
latest_of : Instant → List Instant → Option Instant
latest_of now [] = none
latest_of now (s ∷ rest) = elim (latest_of now rest) [
  | none ↦ if leb s now then some s else none
  | some best ↦ if leb s now && ltb best s then some s else some best
]

last_hour : Kind → ℕ
last_hour full = 0
last_hour heartbeat = 16

pub latest_slot : Kind → Instant → Outcome Instant
unfolding latest_of schedule_hours last_hour
latest_slot kind now = elim (latest_of now (map (slot_of now) (schedule_hours kind))) [
  | some slot ↦ value slot
  | none ↦ sub_us now day_us >>= λ previous_day. value (slot_of previous_day (last_hour kind))
]

pub record Claim : Type 0 where
  pub slot : Instant
  pub claimed_at : Instant

-- The object in the claims file, a key for each kind.
pub record Claims : Type 0 where
  pub full_claim : Option Claim
  pub heartbeat_claim : Option Claim

abbrev pub no_claims : Claims
no_claims = record { full_claim = none; heartbeat_claim = none }

abbrev pub claim_of : Kind → Claims → Option Claim
claim_of full c = c.full_claim
claim_of heartbeat c = c.heartbeat_claim

abbrev pub set_claim : Kind → Option Claim → Claims → Claims
set_claim full p c = record c { full_claim = p }
set_claim heartbeat p c = record c { heartbeat_claim = p }

pub data ClaimsFile : Type 0 where
  absent invalid : ClaimsFile
  valid : Claims → ClaimsFile

unfoldable pub read_claims : ClaimsFile → Outcome Claims
read_claims absent = value no_claims
read_claims invalid = raised
read_claims (valid c) = value c

-- `previous and parse_now(previous["slot"]) >= slot`
abbrev already_claimed : Instant → Option Claim → Bool
already_claimed slot none = false
already_claimed slot (some p) = leb slot p.slot

pub due_slot : Kind → Instant → Claims → ℕ → Outcome (Option Instant)
due_slot kind now claims grace = do
  raise_if (grace == 0)
  slot ← latest_slot kind now
  value (
      if ltb now slot || ltb grace (now - slot) || already_claimed slot (claim_of kind claims)
      then none
      else some slot)

record_claim : Kind → Instant → Claims → ClaimsFile → Option Instant → Option Instant × ClaimsFile
record_claim kind now claims file none = (none, file)
record_claim kind now claims file (some slot) =
    (some slot, valid (set_claim kind (some (record { slot = slot; claimed_at = now })) claims))

pub claim_due_slot : Kind → Instant → ClaimsFile → ℕ → Outcome (Option Instant × ClaimsFile)
unfolding record_claim
claim_due_slot kind now file grace = do
  claims ← read_claims file
  due ← due_slot kind now claims grace
  value (record_claim kind now claims file due)

-- The tests of `release_claim` on the prior claim.
abbrev releasable : Option Claim → Instant → Instant → ℕ → Bool
releasable none slot now grace = false
releasable (some p) slot now grace = p.slot == slot && not (ltb now slot || ltb grace (now - slot))

pub release_claim : Kind → Instant → ClaimsFile → ℕ → Outcome (Option Instant × ClaimsFile)
release_claim kind now file grace = do
  claims ← read_claims file
  slot ← latest_slot kind now
  value (
      if releasable (claim_of kind claims) slot now grace
      then (some slot, valid (set_claim kind none claims))
      else (none, file))

pub seed_current_slots : Instant → ClaimsFile → Outcome (Bool × ClaimsFile)
seed_current_slots now absent = do
  full_slot ← latest_slot full now
  heartbeat_slot ← latest_slot heartbeat now
  value (
    true,
    valid (record {
      full_claim = some (record { slot = full_slot; claimed_at = now });
      heartbeat_claim = some (record { slot = heartbeat_slot; claimed_at = now });
    }),
  )
seed_current_slots now file = do read_claims file; value (false, file)

-- The command line: one action, and a kind unless all are seeded.
pub data Action : Type 0 where
  check claim release seed_all : Action

abbrev pub stand_down : ℕ
stand_down = 3

exit_of : Option Instant × ClaimsFile → ℕ × ClaimsFile
exit_of (none, file) = (stand_down, file)
exit_of (some slot, file) = (0, file)

-- A `None` is returned as a stand-down at once; `--check` prints, `--claim` calls on.
after_due : Action → Kind → Instant → ℕ → ClaimsFile → Option Instant → Outcome (ℕ × ClaimsFile)
unfolding exit_of
after_due action kind now grace file none = value (stand_down, file)
after_due check kind now grace file (some slot) = value (0, file)
after_due action kind now grace file (some slot) = do
  claimed ← claim_due_slot kind now file grace
  value (exit_of claimed)

dispatch : Action → Option Kind → Instant → ℕ → ClaimsFile → Outcome (ℕ × ClaimsFile)
unfolding exit_of after_due
dispatch seed_all kind now grace file = do seeded ← seed_current_slots now file; value (0, seeded.1)
dispatch action none now grace file = value (2, file)
dispatch release (some kind) now grace file = do
  released ← release_claim kind now file grace
  value (exit_of released)
dispatch action (some kind) now grace file = do
  claims ← read_claims file
  due ← due_slot kind now claims grace
  after_due action kind now grace file due

-- The exit status and the claims file; an exception of the actions exits with 2.
pub main : Action → Option Kind → Instant → ℕ → ClaimsFile → ℕ × ClaimsFile
unfolding dispatch
main action kind now grace file = elim (dispatch action kind now grace file) [
  | value r ↦ r
  | raised ↦ (2, file)
]
