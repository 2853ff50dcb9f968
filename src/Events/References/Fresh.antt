-- ===== src/Events/References/Fresh.antt =====
-- `verify_account_event_references` of futures_fund/state_transaction.py on an event that is about to be staged: what
-- verified without it verifies with it pending.
use gpt_market_neutral_crypt.Prelude.{
  ◌≡◌, refl, String, Bool, true, false, Option, none, some, List, [], ◌∷◌, arith, value,
  >>=-eq-value, opt_eq, opt_eq_iff, Option-cases, inl, inr, is_text,
}
use gpt_market_neutral_crypt.Events.{
  Event, Line, load_account_events, event_digest, validate_next, row_valid,
}
use gpt_market_neutral_crypt.Events.Chain.{NewId, IsRow, known_id_iff, row_valid_iff}
use gpt_market_neutral_crypt.Events.References.{
  Marker, Beat, Generations, reconcile_refs, heartbeat_refs, find_event, check_declaration,
  check_found, check_ids, check_events, check_pending, marker_ids, beat_ids,
  verify_account_event_references,
}

-- An id that names an event of the chain names it whatever is pending.
check_declaration-pending :
    (e : Event) (events : List Event) (markers : List Marker) (beats : List Beat)
    (id : Option String)
    → check_declaration events none markers beats id ≡ value tt
    → check_declaration events (some e) markers beats id ≡ value tt
unfolding check_declaration check_found
check_declaration-pending e events markers beats id h = elim (Option-cases (find_event id events)) [
  | inl f ↦ absurd (ground arith)
  | inr (x, f) ↦ ground arith
]

check_ids-pending :
    (e : Event) (events : List Event) (markers : List Marker) (beats : List Beat)
    (ids : List (Option String))
    → check_ids events none markers beats ids ≡ value tt
    → check_ids events (some e) markers beats ids ≡ value tt
unfolding check_ids
check_ids-pending e events markers beats [] h = refl
check_ids-pending e events markers beats (id ∷ ids) h =
    let (_, first, rest) = >>=-eq-value (check_declaration events none markers beats id) _ h in
    rw (check_declaration-pending e events markers beats id first)
      (check_ids-pending e events markers beats ids rest)

-- A pending event that the chain does not hold changes no test on the chain's events.
check_events-pending :
    (e : Event) (events : List Event) (markers : List Marker) (beats : List Beat) (newest : Bool)
    → NewId e.event_id events
    → check_events (some e) markers beats newest events
      ≡ check_events none markers beats newest events
unfolding check_events
check_events-pending e [] markers beats newest n = refl
check_events-pending e (x ∷ events) markers beats newest n =
    let other : opt_eq x.event_id e.event_id ≡ false =
      ground (arith, opt_eq_iff x.event_id e.event_id) in
    rw (other, check_events-pending e events markers beats false n.1) refl

validate_next-IsRow :
    (digest : Event → String) (e : Event) (events : List Event)
    → validate_next digest events e ≡ value tt
    → IsRow digest e
unfolding validate_next
validate_next-IsRow digest e events h =
    let valid : row_valid digest e ≡ true = ground arith in (row_valid_iff digest e).0 valid

check_pending-fresh :
    (digest : Event → String) (e : Event) (events : List Event)
    → NewId e.event_id events
    → validate_next digest events e ≡ value tt
    → check_pending digest events (some e) ≡ value tt
unfolding check_pending
check_pending-fresh digest e events n fit =
    let (_, _, named, _, hash) = validate_next-IsRow digest e events fit in
    let text : is_text e.event_id ≡ true = ground (arith, named) in
    let sealed : opt_eq e.event_sha256 (event_digest digest e) ≡ true = (opt_eq_iff _ _).1 hash in
    rw (text, sealed, (known_id_iff e.event_id events).1 n) fit

-- An event that is new and fits behind the chain verifies as pending, where the references verify without it.
pub verify_fresh :
    (digest : Event → String) (disk : Generations) (lines : List Line) (events : List Event)
    (e : Event)
    → load_account_events digest lines ≡ value events
    → NewId e.event_id events
    → validate_next digest events e ≡ value tt
    → verify_account_event_references digest disk lines none ≡ value tt
    → verify_account_event_references digest disk lines (some e) ≡ value tt
unfolding verify_account_event_references
verify_fresh digest disk lines events e load n fit h =
    let markers = reconcile_refs disk.markers in
    let (events0, loaded, h1) = >>=-eq-value (load_account_events digest lines) _ h in
    let same : events0 ≡ events = ground (arith, load, loaded) in
    let (beats, read, h2) = >>=-eq-value (heartbeat_refs disk.beats) _ h1 in
    let (_, ids, h4) =
      >>=-eq-value (check_ids events0 none markers beats (marker_ids markers)) _ h2 in
    let (_, beat_names, h5) =
      >>=-eq-value (check_ids events0 none markers beats (beat_ids beats)) _ h4 in
    rw
      (
        load,
        read,
        check_pending-fresh digest e events n fit,
        ← same,
        check_ids-pending e events0 markers beats (marker_ids markers) ids,
        check_ids-pending e events0 markers beats (beat_ids beats) beat_names,
        check_events-pending e events0 markers beats true (rw same n),
        h5,
      )
      refl
