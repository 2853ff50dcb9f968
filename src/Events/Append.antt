-- ===== src/Events/Append.antt =====
-- Growing the event chain of futures_fund/state_transaction.py: `prepare_account_event` and
-- `append_account_event`.
pub mod Growth
pub mod Preparing
pub mod Tests
use gpt_market_neutral_crypt.Prelude.{
  ℕ, zero, suc, ◌+◌, ◌≤◌, ◌≡◌, ◌≢◌, ◌↔◌, refl, String, Bool, true, false, not, ◌&&◌, ◌||◌, Option,
  none, some, List, [], ◌∷◌, arith, ◌⊎◌, inl, inr, Outcome, value, raised, ◌>>=◌, ◌>>◌, raise_if,
  opt_eq, opt_eq_iff, str_eq, leb, ltb, ◌==◌, is_text, if◌then◌else◌, length, >>=-eq-value, sym,
  subst, ap, ◌∙◌, Outcome-cases, Bool-cases, value-injective,
}
use gpt_market_neutral_crypt.Time.{Instant}
use gpt_market_neutral_crypt.Events.{
  EventKind, reconcile, heartbeat, other_kind, Origin, root_account_anchor, account_event, Stamp,
  aware, Event, event_digest, Line, row, load_account_events, validate_next, row_valid, known_id,
  fits,
}
use gpt_market_neutral_crypt.Events.Chain.{
  IsRow, Fits, NewId, IsChain, rows, load-rows, load-IsChain, row_valid_iff, fits_iff, known_id_iff,
}
use gpt_market_neutral_crypt.Events.References.{
  Generations, Marker, BeatLine, blank_beat, malformed_beat, beat, event_eq,
  verify_account_event_references,
}

-- The events with an id, oldest first.
unfoldable pub same_id : Option String → List Event → List Event
same_id id [] = []
same_id id (e ∷ events) =
    let rest = same_id id events in if opt_eq e.event_id id then e ∷ rest else rest

-- `account_event_chain_established`
established : List Marker → Bool
established [] = false
established (m ∷ markers) = leb 3 m.version || established markers

beat_established : List BeatLine → Bool
beat_established [] = false
beat_established (blank_beat ∷ lines) = beat_established lines
beat_established (malformed_beat ∷ lines) = beat_established lines
beat_established (beat b ∷ lines) = leb 3 b.version || beat_established lines

pub account_event_chain_established : Generations → Bool
unfolding established beat_established
account_event_chain_established disk = established disk.markers || beat_established disk.beats

-- What the caller of `prepare_account_event` gives.
pub record Intent : Type 0 where
  pub event_id : Option String
  pub kind : EventKind
  pub event_ts : Stamp
  pub base_account_sha256 : Option String
  pub account_state_sha256 : Option String
  pub generation_root_sha256 : Option String

-- The event of an intent behind a chain, without its own hash.
unfoldable pub next_body : List Event → Intent → Event
next_body [] i = record {
  schema_version = some 2;
  event_id = i.event_id;
  kind = i.kind;
  event_ts = i.event_ts;
  lineage_origin = root_account_anchor;
  previous_event_id = none;
  previous_event_sha256 = none;
  base_account_sha256 = i.base_account_sha256;
  account_state_sha256 = i.account_state_sha256;
  generation_root_sha256 = i.generation_root_sha256;
  event_sha256 = none;
}
next_body (prior ∷ older) i = record {
  schema_version = some 2;
  event_id = i.event_id;
  kind = i.kind;
  event_ts = i.event_ts;
  lineage_origin = account_event;
  previous_event_id = prior.event_id;
  previous_event_sha256 = prior.event_sha256;
  base_account_sha256 = i.base_account_sha256;
  account_state_sha256 = i.account_state_sha256;
  generation_root_sha256 = i.generation_root_sha256;
  event_sha256 = none;
}

-- The head of the chain must be where the transaction starts; a chain that is gone stays gone.
check_base : Generations → List Event → Intent → Outcome (Unit {0})
check_base disk [] i = raise_if (account_event_chain_established disk)
check_base disk (prior ∷ older) i =
    raise_if (not (opt_eq prior.account_state_sha256 i.base_account_sha256))

-- The end of the append, by the events with the same id, the test of the new event, and the reading of the file that
-- would be published: a replay changes nothing, and a new event is published and read back.
settle :
    List Event
    → Event
    → Outcome (Unit {0})
    → Outcome (List Event)
    → List Line
    → List Line
    → Outcome (Unit {0}) × List Line
settle [] e raised reread lines file = (raised, lines)
settle [] e (value _) reread lines file = (reread >>= λ _. value tt, file)
settle (x ∷ []) e fit reread lines file = (raise_if (not (event_eq x e)), lines)
settle (x ∷ y ∷ s) e fit reread lines file = (raised, lines)

module _ (digest : Event → String) where
  abbrev sealed : Event → Event
  sealed e = record e { event_sha256 = event_digest digest e }

  -- `prepare_account_event`
  pub prepare_account_event : Generations → List Line → Intent → Outcome Event
  unfolding check_base
  prepare_account_event disk lines i = do
    verify_account_event_references digest disk lines none
    previous ← load_account_events digest lines
    check_base disk previous i
    let event = sealed (next_body previous i)
    validate_next digest previous event
    value event

  -- What is left once the chain is read.
  publish : List Line → List Event → Event → Outcome (Unit {0}) × List Line
  unfolding settle
  publish lines events e =
      let file = rows (e ∷ events) [] in
      settle (same_id e.event_id events) e (validate_next digest events e)
        (load_account_events digest file) lines file

  -- `append_account_event`: the result, and the file.
  pub append_account_event : Generations → List Line → Event → Outcome (Unit {0}) × List Line
  unfolding publish
  append_account_event disk lines e =
      elim (verify_account_event_references digest disk lines (some e)) [
        | raised ↦ (raised, lines)
        | value _ ↦ elim (load_account_events digest lines) [
          | raised ↦ (raised, lines)
          | value events ↦ publish lines events e
        ]
      ]
