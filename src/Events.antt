-- ===== src/Events.antt =====
-- futures_fund/state_transaction.py: the chain of account events, account-events.jsonl. A JSON
-- object is a record with a field for each key that the code reads. A text field is `none` where the key is
-- absent or null (a value of another type is treated alike). `digest` is `canonical_json_sha256` of an event's body.
pub mod Chain
pub mod References
pub mod Append
pub mod Tamper
pub mod Samples
mod Tests
use Prim.Native.Char.{code}
use Prim.Native.String
use Prim.Native.String.{String}
use gpt_market_neutral_crypt.Prelude.{
  ℕ, zero, suc, ◌+◌, ◌-◌, Bool, true, false, ◌||◌, ◌&&◌, not, Option, none, some, List, [], ◌∷◌,
  ◌++◌, map, ltb, leb, ◌==◌, if◌then◌else◌, Outcome, value, raised, ◌>>=◌, ◌>>◌, raise_if, opt_eq,
  is_text, is_null, str_eq, length,
}
use gpt_market_neutral_crypt.Time.{Instant}

pub data EventKind : Type 0 where
  reconcile heartbeat other_kind : EventKind

pub data Origin : Type 0 where
  root_account_anchor account_event other_origin : Origin

-- `datetime.fromisoformat` of the stamp: it raises, has no offset, or is an instant.
pub data Stamp : Type 0 where
  unparsed naive : Stamp
  aware : Instant → Stamp

pub record Event : Type 0 where
  pub schema_version : Option ℕ
  pub event_id : Option String
  pub kind : EventKind
  pub event_ts : Stamp
  pub lineage_origin : Origin
  pub previous_event_id : Option String
  pub previous_event_sha256 : Option String
  pub base_account_sha256 : Option String
  pub account_state_sha256 : Option String
  pub generation_root_sha256 : Option String
  pub event_sha256 : Option String

-- The code points of a text.
codes : String → List ℕ
codes String.[] = []
codes (String.◌∷◌ c s) = code c ∷ codes s

is_hex : ℕ → Bool
is_hex c = (leb b'0' c && leb c b'9') || (leb b'a' c && leb c b'f')

all_hex : List ℕ → Bool
unfolding is_hex
all_hex [] = true
all_hex (c ∷ cs) = is_hex c && all_hex cs

-- `_is_sha256`: 64 lower-case hexadecimal digits.
unfoldable pub is_sha256 : Option String → Bool
unfolding codes all_hex
is_sha256 none = false
is_sha256 (some s) = (length (codes s) == 64) && all_hex (codes s)

-- `_account_event_schema_valid`
schema_valid : Option ℕ → Option String → Bool
schema_valid none root = false
schema_valid (some version) root =
    (version == 1 || version == 2) && (ltb version 2 || is_sha256 root)

abbrev is_event_kind : EventKind → Bool
is_event_kind other_kind = false
is_event_kind _ = true

-- A text that is not empty.
abbrev is_name : Option String → Bool
is_name none = false
is_name (some s) = not (str_eq s "")

abbrev is_anchor : Origin → Bool
is_anchor root_account_anchor = true
is_anchor _ = false

abbrev is_follower : Origin → Bool
is_follower account_event = true
is_follower _ = false

-- The tests on a first event, and on one that stands behind `prior`.
abbrev anchored : Event → Bool
anchored e =
    is_anchor e.lineage_origin && is_null e.previous_event_id && is_null e.previous_event_sha256

abbrev linked : Event → Event → Bool
linked prior e =
    is_follower e.lineage_origin
    && opt_eq e.previous_event_id prior.event_id
    && opt_eq e.previous_event_sha256 prior.event_sha256
    && opt_eq e.base_account_sha256 prior.account_state_sha256

-- The stamp as an instant; naive and unreadable stamps raise.
abbrev instant_of : Stamp → Outcome Instant
instant_of unparsed = raised
instant_of naive = raised
instant_of (aware t) = value t

-- The event fits behind the chain's head; the chain is kept newest first.
unfoldable pub fits : List Event → Event → Outcome (Unit {0})
fits [] e = do instant_of e.event_ts; raise_if (not (anchored e))
fits (prior ∷ older) e = do
  event_ts ← instant_of e.event_ts
  prior_ts ← instant_of prior.event_ts
  raise_if (ltb event_ts prior_ts)
  raise_if (not (linked prior e))

-- `event_id in seen`
unfoldable pub known_id : Option String → List Event → Bool
known_id id [] = false
known_id id (e ∷ events) = opt_eq id e.event_id || known_id id events

-- A line of the file: blank, no JSON object, or one.
pub data Line : Type 0 where
  blank malformed : Line
  row : Event → Line

module _ (digest : Event → String) where
  -- `_account_event_sha256`: the digest of the event without its own hash.
  unfoldable pub event_digest : Event → Option String
  event_digest e = some (digest (record e { event_sha256 = none }))

  -- The row test that the loader and `_validate_next_account_event` share.
  unfoldable pub row_valid : Event → Bool
  unfolding schema_valid
  row_valid e =
      schema_valid e.schema_version e.generation_root_sha256
      && is_event_kind e.kind
      && is_name e.event_id
      && opt_eq e.event_sha256 (event_digest e)

  -- `_validate_next_account_event`
  pub validate_next : List Event → Event → Outcome (Unit {0})
  unfolding fits
  validate_next events e = do raise_if (not (row_valid e)); fits events e

  -- One row of the loader, behind the rows that it has read.
  unfoldable pub load_row : List Event → Event → Outcome (List Event)
  unfolding fits known_id
  load_row events e = do
    raise_if (not (row_valid e && is_text e.account_state_sha256))
    raise_if (known_id e.event_id events)
    fits events e
    value (e ∷ events)

  unfoldable pub load_from : List Event → List Line → Outcome (List Event)
  load_from events [] = value events
  load_from events (blank ∷ lines) = load_from events lines
  load_from events (malformed ∷ lines) = raised
  load_from events (row e ∷ lines) = load_row events e >>= λ events'. load_from events' lines

  -- `load_account_events`, newest first.
  unfoldable pub load_account_events : List Line → Outcome (List Event)
  load_account_events lines = load_from [] lines
