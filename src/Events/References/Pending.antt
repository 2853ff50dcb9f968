-- ===== src/Events/References/Pending.antt =====
-- `verify_account_event_references` of futures_fund/state_transaction.py through a commit: a
-- reconcile event that verified as pending still does once the chain holds it, and once its
-- generation declares it.
use gpt_market_neutral_crypt.Prelude.{
  ◌≡◌, ◌≢◌, refl, String, Bool, true, false, Option, none, some, List, [], ◌∷◌, arith, All, value,
  >>=-eq-value, opt_eq, opt_eq_iff, Bool-cases, inl, inr,
}
use gpt_market_neutral_crypt.Events.{Event, reconcile, Line, load_account_events, known_id}
use gpt_market_neutral_crypt.Events.Chain.{NewId}
use gpt_market_neutral_crypt.Events.References.{
  Marker, Beat, Generations, reconcile_refs, heartbeat_refs, markers_of, find_event,
  check_declaration, check_ids, check_reconcile, check_event, check_events, check_pending, at_head,
  marker_ids, beat_ids, verify_account_event_references, declared_event, event_eq, event_eq_iff,
}

-- No generation of the list declares the id.
abbrev pub NoMarker : Option String → List Marker → Type 0
NoMarker id markers = All (λ (m : Marker). id ≢ m.account_event_id) markers

pub markers_of-NoMarker :
    (id : Option String) (markers : List Marker) → NoMarker id markers → markers_of id markers ≡ []
unfolding markers_of
markers_of-NoMarker id [] n = refl
markers_of-NoMarker id (m ∷ markers) n =
    ground (arith, opt_eq_iff id m.account_event_id, markers_of-NoMarker id markers n.1)

find_event-new :
    (id : Option String) (events : List Event) → NewId id events → find_event id events ≡ none
unfolding find_event
find_event-new id [] n = refl
find_event-new id (e ∷ events) n =
    ground (arith, opt_eq_iff id e.event_id, find_event-new id events n.1)

-- An id declares the same event, pending or published.
declared_event-published :
    (id : Option String) (e : Event) (events : List Event)
    → NewId e.event_id events
    → declared_event id (e ∷ events) (some e) ≡ declared_event id events (some e)
unfolding find_event
declared_event-published id e events n = elim (Bool-cases (opt_eq id e.event_id)) [
  | inl t ↦
      let same : id ≡ e.event_id = (opt_eq_iff id e.event_id).0 t in
      ground (arith, find_event-new id events (rw same n))
  | inr f ↦ ground arith
]

check_ids-published :
    (e : Event) (events : List Event) (markers : List Marker) (beats : List Beat)
    (ids : List (Option String))
    → NewId e.event_id events
    → check_ids (e ∷ events) (some e) markers beats ids
      ≡ check_ids events (some e) markers beats ids
unfolding check_ids check_declaration
check_ids-published e events markers beats [] n = refl
check_ids-published e events markers beats (id ∷ ids) n =
    rw (declared_event-published id e events n, check_ids-published e events markers beats ids n)
      refl

pub check_events-old :
    (e : Event) (events : List Event) (markers : List Marker) (beats : List Beat)
    (newest newest' : Bool)
    → NewId e.event_id events
    → check_events (some e) markers beats newest events
      ≡ check_events (some e) markers beats newest' events
unfolding check_events
check_events-old e [] markers beats newest newest' n = refl
check_events-old e (x ∷ events) markers beats newest newest' n =
    let other : opt_eq x.event_id e.event_id ≡ false =
      ground (arith, opt_eq_iff x.event_id e.event_id) in
    rw other refl

check_pending_known :
    (digest : Event → String) (e : Event) (events : List Event)
    → check_pending digest events (some e) ≡ value tt
    → check_pending digest (e ∷ events) (some e) ≡ value tt
unfolding check_pending at_head known_id
check_pending_known digest e events h =
    ground (arith, opt_eq_iff e.event_id e.event_id, event_eq_iff e e)

pub check_head :
    (e : Event) (events : List Event) (markers : List Marker) (beats : List Beat)
    → NewId e.event_id events
    → e.kind ≡ reconcile
    → check_reconcile true e (markers_of e.event_id markers) ≡ value tt
    → check_events (some e) markers beats true events ≡ value tt
    → check_events (some e) markers beats true (e ∷ events) ≡ value tt
unfolding check_events check_event
check_head e events markers beats n k alone rest =
    let here : opt_eq e.event_id e.event_id ≡ true = (opt_eq_iff e.event_id e.event_id).1 refl in
    let same : event_eq e e ≡ true = (event_eq_iff e e).1 refl in
    rw (here, same, k, alone, check_events-old e events markers beats false true n, rest) refl

-- A pending reconcile event that verifies with the old chain verifies as the head of the new one, if its id is new and
-- no generation declares it yet.
pub verify_published :
    (digest : Event → String) (disk : Generations) (lines lines' : List Line) (events : List Event)
    (e : Event)
    → load_account_events digest lines ≡ value events
    → load_account_events digest lines' ≡ value (e ∷ events)
    → NewId e.event_id events
    → e.kind ≡ reconcile
    → NoMarker e.event_id (reconcile_refs disk.markers)
    → verify_account_event_references digest disk lines (some e) ≡ value tt
    → verify_account_event_references digest disk lines' (some e) ≡ value tt
unfolding verify_account_event_references check_reconcile
verify_published digest disk lines lines' events e load load' n k free h =
    let markers = reconcile_refs disk.markers in
    let (events0, loaded, h1) = >>=-eq-value (load_account_events digest lines) _ h in
    let same : events0 ≡ events = ground (arith, load, loaded) in
    let (beats, read, h2) = >>=-eq-value (heartbeat_refs disk.beats) _ h1 in
    let (_, pending, h3) = >>=-eq-value (check_pending digest events0 (some e)) _ h2 in
    let (_, ids, h4) =
      >>=-eq-value (check_ids events0 (some e) markers beats (marker_ids markers)) _ h3 in
    let (_, beat_names, h5) =
      >>=-eq-value (check_ids events0 (some e) markers beats (beat_ids beats)) _ h4 in
    let alone : check_reconcile true e (markers_of e.event_id markers) ≡ value tt =
      rw (markers_of-NoMarker e.event_id markers free) refl in
    rw
      (
        load',
        read,
        check_pending_known digest e events (rw (← same) pending),
        check_ids-published e events markers beats (marker_ids markers) n,
        check_ids-published e events markers beats (beat_ids beats) n,
        ← same,
        ids,
        beat_names,
        check_head e events0 markers beats (rw same n) k alone h5,
      )
      refl
