-- ===== src/Events/References.antt =====
-- The two-way binding of account events and generations in futures_fund/state_transaction.py.
mod Equality
pub mod Bound
pub mod Pending
pub mod Fresh
pub mod Declared
pub mod Tests
unfoldable pub use Equality.{kind_eq, event_eq, version_eq}
pub use Equality.{event_eq_iff, version_eq_iff, both}
use gpt_market_neutral_crypt.Prelude.{
  ℕ, zero, suc, ◌+◌, ◌≤◌, ◌≡◌, ◌≢◌, ◌↔◌, refl, String, Bool, true, false, not, ◌&&◌, ◌||◌, Option,
  none, some, List, [], ◌∷◌, arith, Outcome, value, raised, ◌>>=◌, ◌>>◌, raise_if, opt_eq,
  opt_eq_iff, str_eq, leb, ltb, ◌==◌, is_text, if◌then◌else◌, length,
}
use gpt_market_neutral_crypt.Events.{
  EventKind, reconcile, heartbeat, other_kind, Origin, root_account_anchor, account_event,
  other_origin, Stamp, unparsed, naive, aware, Event, event_digest, Line, load_account_events,
  validate_next, known_id,
}

-- What `rebal/cycle/<n>/complete.json` declares: the manifest's version (0 with no manifest), the ids, and
-- the hash of the account state. `intact` is `cycle_is_complete(…, require_manifest=True)`.
pub record Marker : Type 0 where
  pub version : ℕ
  pub account_event_id : Option String
  pub commit_id : Option String
  pub account_state_sha256 : Option String
  pub intact : Bool

-- A row of portfolio-heartbeats.jsonl. `intact` is `verify_heartbeat_completion`.
pub record Beat : Type 0 where
  pub version : ℕ
  pub commit_id : Option String
  pub account_state_sha256 : Option String
  pub account_event_sha256 : Option String
  pub intact : Bool

-- A line of that file: blank, one that does not parse, or a row.
pub data BeatLine : Type 0 where
  blank_beat malformed_beat : BeatLine
  beat : Beat → BeatLine

-- The generations on disk: the readable markers, and the heartbeat ledger.
pub record Generations : Type 0 where
  pub markers : List Marker
  pub beats : List BeatLine

-- A marker of the unified protocol that names an event.
abbrev pub declares : Marker → Bool
declares m = leb 3 m.version && is_text m.account_event_id

unfoldable pub reconcile_refs : List Marker → List Marker
reconcile_refs [] = []
reconcile_refs (m ∷ markers) =
    let rest = reconcile_refs markers in if declares m then m ∷ rest else rest

abbrev is_commit : Option String → Bool
is_commit none = false
is_commit (some s) = not (str_eq s "")

-- A row of version 3 on must carry a commit id; older rows declare nothing.
unfoldable pub heartbeat_refs : List BeatLine → Outcome (List Beat)
heartbeat_refs [] = value []
heartbeat_refs (blank_beat ∷ lines) = heartbeat_refs lines
heartbeat_refs (malformed_beat ∷ lines) = raised
heartbeat_refs (beat b ∷ lines) = do
  raise_if (leb 3 b.version && not (is_commit b.commit_id))
  rest ← heartbeat_refs lines
  value (if leb 3 b.version then b ∷ rest else rest)

-- The markers and the rows that name an id.
unfoldable pub markers_of : Option String → List Marker → List Marker
markers_of id [] = []
markers_of id (m ∷ markers) =
    let rest = markers_of id markers in if opt_eq id m.account_event_id then m ∷ rest else rest

unfoldable pub beats_of : Option String → List Beat → List Beat
beats_of id [] = []
beats_of id (b ∷ beats) =
    let rest = beats_of id beats in if opt_eq id b.commit_id then b ∷ rest else rest

unfoldable pub find_event : Option String → List Event → Option Event
find_event id [] = none
find_event id (e ∷ events) = if opt_eq id e.event_id then some e else find_event id events

-- The event that an id declares: one of the chain, or the pending one.
abbrev declared_event : Option String → List Event → Option Event → Option Event
declared_event id events pending = elim (find_event id events) [
  | some e ↦ some e
  | none ↦ elim pending [ none ↦ none | some p ↦ if opt_eq id p.event_id then some p else none ]
]

abbrev declared_kind : ℕ → EventKind
declared_kind zero = heartbeat
declared_kind (suc n) = reconcile

-- The test on one declared id: its event is there, declared once, and of the declared kind.
check_found : ℕ → ℕ → Option Event → Outcome (Unit {0})
check_found markers beats none = raised
check_found markers beats (some e) =
    raise_if (not (markers + beats == 1)) >> raise_if (not (kind_eq e.kind (declared_kind markers)))

check_declaration :
    List Event → Option Event → List Marker → List Beat → Option String → Outcome (Unit {0})
unfolding check_found
check_declaration events pending markers beats id =
    check_found (length (markers_of id markers)) (length (beats_of id beats))
      (declared_event id events pending)

check_ids :
    List Event → Option Event → List Marker → List Beat → List (Option String) → Outcome (Unit {0})
unfolding check_declaration
check_ids events pending markers beats [] = value tt
check_ids events pending markers beats (id ∷ ids) =
    check_declaration events pending markers beats id >> check_ids events pending markers beats ids

abbrev is_pending : Option Event → Event → Bool
is_pending none e = false
is_pending (some p) e = opt_eq e.event_id p.event_id

-- It differs from the pending event.
abbrev misplaced : Option Event → Event → Bool
misplaced none e = false
misplaced (some p) e = not (event_eq e p)

-- The generation of a reconcile event; a pending one may have none yet, or a partial one.
pub check_reconcile : Bool → Event → List Marker → Outcome (Unit {0})
check_reconcile true e [] = value tt
check_reconcile true e (m ∷ []) = value tt
check_reconcile false e (m ∷ []) = raise_if (
    not (
      opt_eq m.commit_id e.event_id
      && opt_eq m.account_state_sha256 e.account_state_sha256
      && m.intact))
check_reconcile _ e _ = raised

-- The generation of a heartbeat event: its index row must be there, and be bound to it.
check_heartbeat : Bool → Event → List Beat → Outcome (Unit {0})
check_heartbeat pending e (b ∷ []) = raise_if (
    not (
      opt_eq b.account_state_sha256 e.account_state_sha256
      && opt_eq b.account_event_sha256 e.event_sha256
      && (b.intact || pending)))
check_heartbeat pending e _ = raised

check_event : Bool → List Marker → List Beat → Event → Outcome (Unit {0})
unfolding check_reconcile check_heartbeat
check_event pending markers beats e = elim e.kind [
  | reconcile ↦ check_reconcile pending e (markers_of e.event_id markers)
  | _ ↦ check_heartbeat pending e (beats_of e.event_id beats)
]

-- Every event has its generation; the pending one may stand at the head only, unchanged.
pub check_events : Option Event → List Marker → List Beat → Bool → List Event → Outcome (Unit {0})
unfolding check_event
check_events pending markers beats newest [] = value tt
check_events pending markers beats newest (e ∷ events) =
    raise_if (is_pending pending e && (misplaced pending e || not newest))
    >> check_event (is_pending pending e) markers beats e
    >> check_events pending markers beats false events

unfoldable pub marker_ids : List Marker → List (Option String)
marker_ids [] = []
marker_ids (m ∷ markers) = m.account_event_id ∷ marker_ids markers

unfoldable pub beat_ids : List Beat → List (Option String)
beat_ids [] = []
beat_ids (b ∷ beats) = b.commit_id ∷ beat_ids beats

at_head : List Event → Event → Outcome (Unit {0})
at_head [] p = raised
at_head (head ∷ older) p = raise_if (not (event_eq head p))

module _ (digest : Event → String) where
  -- The pending event carries its own hash, and is the chain's head or fits behind it.
  check_pending : List Event → Option Event → Outcome (Unit {0})
  unfolding at_head
  check_pending events none = value tt
  check_pending events (some p) = do
    raise_if (not (is_text p.event_id && opt_eq p.event_sha256 (event_digest digest p)))
    (if known_id p.event_id events then at_head events p else validate_next digest events p)

  -- `verify_account_event_references`
  pub verify_account_event_references : Generations → List Line → Option Event → Outcome (Unit {0})
  unfolding check_pending check_ids check_events
  verify_account_event_references disk lines pending = do
    events ← load_account_events digest lines
    let markers = reconcile_refs disk.markers
    beats ← heartbeat_refs disk.beats
    check_pending events pending
    check_ids events pending markers beats (marker_ids markers)
    check_ids events pending markers beats (beat_ids beats)
    check_events pending markers beats true events
