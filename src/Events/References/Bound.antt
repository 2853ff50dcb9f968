-- ===== src/Events/References/Bound.antt =====
-- What a passed `verify_account_event_references` of futures_fund/state_transaction.py shows.
use gpt_market_neutral_crypt.Prelude.{
  ◌≡◌, refl, String, Bool, true, false, Option, none, some, List, [], ◌∷◌, arith, All, value,
  >>=-eq-value, opt_eq_iff, Option-cases, inl, inr, length, ◌+◌,
}
use gpt_market_neutral_crypt.Events.{
  Event, reconcile, heartbeat, Line, load_account_events, known_id,
}
use gpt_market_neutral_crypt.Events.References.{
  Marker, Beat, Generations, reconcile_refs, heartbeat_refs, markers_of, beats_of, find_event,
  check_declaration, check_ids, check_reconcile, check_heartbeat, check_event, check_events,
  check_pending, marker_ids, beat_ids, verify_account_event_references,
}

-- The event has one generation of its kind, intact, and bound to its id or hash and its account
-- state.
abbrev pub IsDeclared : List Marker → List Beat → Event → Type 0
IsDeclared markers beats e =
    ((e.kind ≡ reconcile)
      → (m : Marker) × (markers_of e.event_id markers ≡ m ∷ [])
        × (m.intact ≡ true)
        × (m.commit_id ≡ e.event_id)
        × (m.account_state_sha256 ≡ e.account_state_sha256))
    × ((e.kind ≡ heartbeat)
        → (b : Beat) × (beats_of e.event_id beats ≡ b ∷ [])
          × (b.intact ≡ true)
          × (b.account_event_sha256 ≡ e.event_sha256)
          × (b.account_state_sha256 ≡ e.account_state_sha256))

one_marker :
    (e : Event) (ms : List Marker)
    → check_reconcile false e ms ≡ value tt
    → (m : Marker) × (ms ≡ m ∷ [])
      × (m.intact ≡ true)
      × (m.commit_id ≡ e.event_id)
      × (m.account_state_sha256 ≡ e.account_state_sha256)
unfolding check_reconcile
one_marker e [] h = cc
one_marker e (m ∷ []) h =
    let by_id = opt_eq_iff m.commit_id e.event_id in
    let by_state = opt_eq_iff m.account_state_sha256 e.account_state_sha256 in
    (m, refl, ground arith, ground (arith, by_id), ground (arith, by_state))
one_marker e (m ∷ n ∷ ms) h = cc

one_beat :
    (e : Event) (bs : List Beat)
    → check_heartbeat false e bs ≡ value tt
    → (b : Beat) × (bs ≡ b ∷ [])
      × (b.intact ≡ true)
      × (b.account_event_sha256 ≡ e.event_sha256)
      × (b.account_state_sha256 ≡ e.account_state_sha256)
unfolding check_heartbeat
one_beat e [] h = cc
one_beat e (b ∷ []) h =
    let by_hash = opt_eq_iff b.account_event_sha256 e.event_sha256 in
    let by_state = opt_eq_iff b.account_state_sha256 e.account_state_sha256 in
    (b, refl, ground arith, ground (arith, by_hash), ground (arith, by_state))
one_beat e (b ∷ c ∷ bs) h = cc

check_event-IsDeclared :
    (markers : List Marker) (beats : List Beat) (e : Event)
    → check_event false markers beats e ≡ value tt
    → IsDeclared markers beats e
unfolding check_event
check_event-IsDeclared markers beats e h = (
  λ k. one_marker e (markers_of e.event_id markers) (ground arith),
  λ k. one_beat e (beats_of e.event_id beats) (ground arith),
)

check_events-IsDeclared :
    (markers : List Marker) (beats : List Beat) (newest : Bool) (events : List Event)
    → check_events none markers beats newest events ≡ value tt
    → All (IsDeclared markers beats) events
unfolding check_events
check_events-IsDeclared markers beats newest [] h = tt
check_events-IsDeclared markers beats newest (e ∷ events) h =
    let (_, first, rest) = >>=-eq-value (check_event false markers beats e) _ h in
    (
      check_event-IsDeclared markers beats e first,
      check_events-IsDeclared markers beats false events rest,
    )

find_event-known :
    (id : Option String) (events : List Event) (e : Event)
    → find_event id events ≡ some e
    → known_id id events ≡ true
unfolding find_event known_id
find_event-known id [] e h = cc
find_event-known id (x ∷ events) e h = ground (arith, find_event-known id events e)

-- The id names an event of the chain, and one generation declares it.
abbrev pub IsNamed : List Event → List Marker → List Beat → Option String → Type 0
IsNamed events markers beats id =
    (known_id id events ≡ true) × (length (markers_of id markers) + length (beats_of id beats) ≡ 1)

check_declaration-IsNamed :
    (events : List Event) (markers : List Marker) (beats : List Beat) (id : Option String)
    → check_declaration events none markers beats id ≡ value tt
    → IsNamed events markers beats id
unfolding check_declaration
check_declaration-IsNamed events markers beats id h = elim (Option-cases (find_event id events)) [
  | inl lost ↦ absurd (ground arith)
  | inr (e, found) ↦ (find_event-known id events e found, ground arith)
]

check_ids-IsNamed :
    (events : List Event) (markers : List Marker) (beats : List Beat) (ids : List (Option String))
    → check_ids events none markers beats ids ≡ value tt
    → All (IsNamed events markers beats) ids
unfolding check_ids
check_ids-IsNamed events markers beats [] h = tt
check_ids-IsNamed events markers beats (id ∷ ids) h =
    let (_, first, rest) = >>=-eq-value (check_declaration events none markers beats id) _ h in
    (
      check_declaration-IsNamed events markers beats id first,
      check_ids-IsNamed events markers beats ids rest,
    )

-- With no event pending, a passed verification binds events and generations both ways: each event
-- of the chain has one intact generation of its kind that names it and its account state, and each generation
-- that the unified protocol declares names an event of the chain and is the only one to do so.
pub verified_references :
    (digest : Event → String) (disk : Generations) (lines : List Line)
    → verify_account_event_references digest disk lines none ≡ value tt
    → let markers = reconcile_refs disk.markers in
      (events : List Event) × (beats : List Beat) × (load_account_events digest lines
        ≡ value events)
      × (heartbeat_refs disk.beats ≡ value beats)
      × All (IsDeclared markers beats) events
      × All (IsNamed events markers beats) (marker_ids markers)
      × All (IsNamed events markers beats) (beat_ids beats)
unfolding verify_account_event_references check_pending
verified_references digest disk lines h =
    let markers = reconcile_refs disk.markers in
    let (events, loaded, h1) = >>=-eq-value (load_account_events digest lines) _ h in
    let (beats, read, h2) = >>=-eq-value (heartbeat_refs disk.beats) _ h1 in
    let (_, ids, h3) =
      >>=-eq-value (check_ids events none markers beats (marker_ids markers)) _ h2 in
    let (_, beat_names, h4) =
      >>=-eq-value (check_ids events none markers beats (beat_ids beats)) _ h3 in
    (
      events,
      beats,
      loaded,
      read,
      check_events-IsDeclared markers beats true events h4,
      check_ids-IsNamed events markers beats (marker_ids markers) ids,
      check_ids-IsNamed events markers beats (beat_ids beats) beat_names,
    )
