-- ===== src/Events/References/Declared.antt =====
-- `verify_account_event_references` of futures_fund/state_transaction.py behind a commit: an event at the head of the chain
-- that verifies as pending still does once its own generation declares it.
use gpt_market_neutral_crypt.Prelude.{
  ◌≡◌, ◌≢◌, refl, String, Bool, true, false, not, ◌&&◌, ◌||◌, Option, some, List, [], ◌∷◌, arith,
  sym, ap, subst, ◌∙◌, All, value, ◌>>◌, raise_if, >>=-eq-value, opt_eq, opt_eq_iff, length,
  is_text,
}
use gpt_market_neutral_crypt.Events.{Event, reconcile, Line, load_account_events, known_id}
use gpt_market_neutral_crypt.Events.Chain.{NewId}
use gpt_market_neutral_crypt.Events.References.{
  Marker, Beat, Generations, reconcile_refs, heartbeat_refs, markers_of, beats_of, find_event,
  check_declaration, check_found, check_ids, check_reconcile, check_event, check_events,
  check_pending, marker_ids, beat_ids, verify_account_event_references, declares, declared_event,
  kind_eq, is_pending, misplaced, at_head, event_eq_iff,
}
use gpt_market_neutral_crypt.Events.References.Pending.{
  NoMarker, markers_of-NoMarker, check_head, check_events-old,
}

-- Ids that are not the event's.
abbrev Apart : Event → List (Option String) → Type 0
Apart e ids = All (λ (id : Option String). id ≢ e.event_id) ids

marker_ids-Apart :
    (e : Event) (markers : List Marker) → NoMarker e.event_id markers → Apart e (marker_ids markers)
unfolding marker_ids
marker_ids-Apart e [] n = tt
marker_ids-Apart e (m ∷ markers) n = ((λ p. n.0 (sym p)), marker_ids-Apart e markers n.1)

markers_of-other :
    (id : Option String) (own : Marker) (markers : List Marker)
    → id ≢ own.account_event_id
    → markers_of id (own ∷ markers) ≡ markers_of id markers
unfolding markers_of
markers_of-other id own markers other = ground (arith, opt_eq_iff id own.account_event_id)

markers_of-own :
    (id : Option String) (own : Marker) (markers : List Marker)
    → own.account_event_id ≡ id
    → NoMarker id markers
    → markers_of id (own ∷ markers) ≡ own ∷ []
unfolding markers_of
markers_of-own id own markers same n =
    let here : opt_eq id own.account_event_id ≡ true =
      (opt_eq_iff id own.account_event_id).1 (sym same) in
    rw (here, markers_of-NoMarker id markers n) refl

find_event-head : (e : Event) (older : List Event) → find_event e.event_id (e ∷ older) ≡ some e
unfolding find_event
find_event-head e older = rw ((opt_eq_iff e.event_id e.event_id).1 refl) refl

declared_event-head :
    (e : Event) (older : List Event) → declared_event e.event_id (e ∷ older) (some e) ≡ some e
declared_event-head e older = ground (arith, find_event-head e older)

-- No heartbeat row may name a reconcile event.
check_declaration_kind :
    (e : Event) (older : List Event) (markers : List Marker) (beats : List Beat)
    (id : Option String)
    → e.kind ≡ reconcile
    → NoMarker e.event_id markers
    → check_declaration (e ∷ older) (some e) markers beats id ≡ value tt
    → id ≢ e.event_id
unfolding check_declaration check_found kind_eq
check_declaration_kind e older markers beats id kind free h same =
    let found : find_event id (e ∷ older) ≡ some e = rw same (find_event-head e older) in
    let alone : markers_of id markers ≡ [] =
      rw same (markers_of-NoMarker e.event_id markers free) in
    ground (arith, found, alone, kind)

check_ids-Apart :
    (e : Event) (older : List Event) (markers : List Marker) (beats : List Beat)
    (ids : List (Option String))
    → e.kind ≡ reconcile
    → NoMarker e.event_id markers
    → check_ids (e ∷ older) (some e) markers beats ids ≡ value tt
    → Apart e ids
unfolding check_ids
check_ids-Apart e older markers beats [] kind free h = tt
check_ids-Apart e older markers beats (id ∷ ids) kind free h =
    let (_, first, rest) =
      >>=-eq-value (check_declaration (e ∷ older) (some e) markers beats id) _ h in
    (
      check_declaration_kind e older markers beats id kind free first,
      check_ids-Apart e older markers beats ids kind free rest,
    )

-- The event's own marker changes no test on the other ids.
check_ids-own :
    (events : List Event) (e : Event) (own : Marker) (markers : List Marker) (beats : List Beat)
    (ids : List (Option String))
    → own.account_event_id ≡ e.event_id
    → Apart e ids
    → check_ids events (some e) (own ∷ markers) beats ids
      ≡ check_ids events (some e) markers beats ids
unfolding check_ids check_declaration
check_ids-own events e own markers beats [] same a = refl
check_ids-own events e own markers beats (id ∷ ids) same a =
    let other : id ≢ own.account_event_id = λ p. a.0 (p ∙ same) in
    rw
      (markers_of-other id own markers other, check_ids-own events e own markers beats ids same a.1)
      refl

check_event-own :
    (pending : Bool) (x : Event) (own : Marker) (markers : List Marker) (beats : List Beat)
    → x.event_id ≢ own.account_event_id
    → check_event pending (own ∷ markers) beats x ≡ check_event pending markers beats x
unfolding check_event
check_event-own pending x own markers beats other =
    ground (arith, markers_of-other x.event_id own markers other)

check_events-own :
    (events : List Event) (e : Event) (own : Marker) (markers : List Marker) (beats : List Beat)
    (newest : Bool)
    → own.account_event_id ≡ e.event_id
    → NewId e.event_id events
    → check_events (some e) (own ∷ markers) beats newest events
      ≡ check_events (some e) markers beats newest events
unfolding check_events
check_events-own [] e own markers beats newest same n = refl
check_events-own (x ∷ events) e own markers beats newest same n =
    let other : x.event_id ≢ own.account_event_id = λ p. n.0 (sym (p ∙ same)) in
    rw
      (
        check_event-own _ x own markers beats other,
        check_events-own events e own markers beats false same n.1,
      )
      refl

beats_of-Apart :
    (e : Event) (beats : List Beat) → Apart e (beat_ids beats) → beats_of e.event_id beats ≡ []
unfolding beats_of beat_ids
beats_of-Apart e [] a = refl
beats_of-Apart e (b ∷ beats) a =
    let ne : e.event_id ≢ b.commit_id = λ p. a.0 (sym p) in
    let other : opt_eq e.event_id b.commit_id ≡ false =
      ground (arith, opt_eq_iff e.event_id b.commit_id) in
    rw (other, beats_of-Apart e beats a.1) refl

-- The own marker's declaration.
check_declaration-own :
    (e : Event) (older : List Event) (own : Marker) (markers : List Marker) (beats : List Beat)
    → e.kind ≡ reconcile
    → own.account_event_id ≡ e.event_id
    → NoMarker e.event_id markers
    → Apart e (beat_ids beats)
    → check_declaration (e ∷ older) (some e) (own ∷ markers) beats own.account_event_id ≡ value tt
unfolding check_declaration check_found kind_eq
check_declaration-own e older own markers beats kind same free a =
    ap (check_declaration (e ∷ older) (some e) (own ∷ markers) beats) same
    ∙ ap
        (check_found (length (markers_of e.event_id (own ∷ markers)))
          (length (beats_of e.event_id beats)))
        (declared_event-head e older)
    ∙ rw (markers_of-own e.event_id own markers same free, beats_of-Apart e beats a, kind) refl

check_events-older :
    (e : Event) (older : List Event) (markers : List Marker) (beats : List Beat)
    → NewId e.event_id older
    → check_events (some e) markers beats true (e ∷ older) ≡ value tt
    → check_events (some e) markers beats true older ≡ value tt
unfolding check_events
check_events-older e older markers beats n h =
    let pending = is_pending (some e) e in
    let (_, _, rest) =
      >>=-eq-value
        (raise_if (pending && (misplaced (some e) e || not true))
          >> check_event pending markers beats e)
        _ h in
    check_events-old e older markers beats true false n ∙ rest

reconcile_refs-own :
    (own : Marker) (markers : List Marker)
    → declares own ≡ true
    → reconcile_refs (own ∷ markers) ≡ own ∷ reconcile_refs markers
unfolding reconcile_refs
reconcile_refs-own own markers declared = rw declared refl

verify_intro :
    (digest : Event → String) (disk : Generations) (lines : List Line) (chain : List Event)
    (e : Event) (beats : List Beat)
    → load_account_events digest lines ≡ value chain
    → heartbeat_refs disk.beats ≡ value beats
    → check_pending digest chain (some e) ≡ value tt
    → check_ids chain
        (some e)
        (reconcile_refs disk.markers)
        beats
        (marker_ids (reconcile_refs disk.markers))
      ≡ value tt
    → check_ids chain (some e) (reconcile_refs disk.markers) beats (beat_ids beats) ≡ value tt
    → check_events (some e) (reconcile_refs disk.markers) beats true chain ≡ value tt
    → verify_account_event_references digest disk lines (some e) ≡ value tt
unfolding verify_account_event_references
verify_intro digest disk lines chain e beats load read pending ids names body =
    rw (load, read, pending, ids, names) body

check_ids-cons :
    (events : List Event) (e : Event) (own : Marker) (markers : List Marker) (beats : List Beat)
    → check_declaration events (some e) (own ∷ markers) beats own.account_event_id ≡ value tt
    → check_ids events (some e) (own ∷ markers) beats (marker_ids markers) ≡ value tt
    → check_ids events (some e) (own ∷ markers) beats (marker_ids (own ∷ markers)) ≡ value tt
unfolding check_ids marker_ids
check_ids-cons events e own markers beats first rest = rw first rest

-- An event at the head of the chain that verifies as pending still does with its own generation declared.
pub verify_declared :
    (digest : Event → String) (disk : Generations) (lines : List Line) (older : List Event)
    (e : Event) (own : Marker)
    → load_account_events digest lines ≡ value (e ∷ older)
    → NewId e.event_id older
    → e.kind ≡ reconcile
    → declares own ≡ true
    → own.account_event_id ≡ e.event_id
    → NoMarker e.event_id (reconcile_refs disk.markers)
    → verify_account_event_references digest disk lines (some e) ≡ value tt
    → verify_account_event_references digest
        (record disk { markers = own ∷ disk.markers })
        lines
        (some e)
      ≡ value tt
unfolding verify_account_event_references
verify_declared digest disk lines older e own load n kind declared same free h =
    let refs = reconcile_refs disk.markers in
    let chain = e ∷ older in
    let (events0, loaded, h1) = >>=-eq-value (load_account_events digest lines) _ h in
    let eq : events0 ≡ chain = ground (arith, load, loaded) in
    let (beats, read, h2) = >>=-eq-value (heartbeat_refs disk.beats) _ h1 in
    let (_, pending, h3) = >>=-eq-value (check_pending digest events0 (some e)) _ h2 in
    let (_, ids, h4) =
      >>=-eq-value (check_ids events0 (some e) refs beats (marker_ids refs)) _ h3 in
    let (_, beat_names, h5) =
      >>=-eq-value (check_ids events0 (some e) refs beats (beat_ids beats)) _ h4 in
    let names : check_ids chain (some e) refs beats (beat_ids beats) ≡ value tt =
      subst (λ (xs : List Event). check_ids xs (some e) refs beats (beat_ids beats) ≡ value tt) eq
        beat_names in
    let apart = check_ids-Apart e older refs beats (beat_ids beats) kind free names in
    let older_ok =
      check_events-older e older refs beats n
        (subst (λ (xs : List Event). check_events (some e) refs beats true xs ≡ value tt) eq h5) in
    let head : check_reconcile true e (markers_of e.event_id (own ∷ refs)) ≡ value tt =
      ap (check_reconcile true e) (markers_of-own e.event_id own refs same free) in
    let body : check_events (some e) (own ∷ refs) beats true chain ≡ value tt =
      check_head e older (own ∷ refs) beats n kind head
        (check_events-own older e own refs beats true same n ∙ older_ok) in
    let named : check_ids chain (some e) (own ∷ refs) beats (marker_ids refs) ≡ value tt =
      check_ids-own chain e own refs beats (marker_ids refs) same (marker_ids-Apart e refs free)
      ∙ subst (λ (xs : List Event). check_ids xs (some e) refs beats (marker_ids refs) ≡ value tt)
          eq ids in
    let checked : check_pending digest chain (some e) ≡ value tt =
      subst (λ (xs : List Event). check_pending digest xs (some e) ≡ value tt) eq pending in
    let disk' : Generations = record disk { markers = own ∷ disk.markers } in
    let grown : own ∷ refs ≡ reconcile_refs disk'.markers =
      sym (reconcile_refs-own own disk.markers declared) in
    let declaration = check_declaration-own e older own refs beats kind same free apart in
    verify_intro digest disk' lines chain e beats load read checked
      (subst (λ (ms : List Marker). check_ids chain (some e) ms beats (marker_ids ms) ≡ value tt)
        grown (check_ids-cons chain e own refs beats declaration named))
      (subst (λ (ms : List Marker). check_ids chain (some e) ms beats (beat_ids beats) ≡ value tt)
        grown (check_ids-own chain e own refs beats (beat_ids beats) same apart ∙ names))
      (subst (λ (ms : List Marker). check_events (some e) ms beats true chain ≡ value tt) grown
        body)

at_head-inversion :
    (events : List Event) (e : Event)
    → at_head events e ≡ value tt
    → (older : List Event) × (events ≡ e ∷ older)
unfolding at_head
at_head-inversion [] e h = absurd (ground arith)
at_head-inversion (x ∷ older) e h =
    let same : x ≡ e = (event_eq_iff x e).0 (ground arith) in
    (older, ap (λ (y : Event). y ∷ older) same)

at_head_known :
    (digest : Event → String) (events : List Event) (e : Event)
    → known_id e.event_id events ≡ true
    → check_pending digest events (some e) ≡ value tt
    → at_head events e ≡ value tt
unfolding check_pending
at_head_known digest events e known h = ground (arith, known)

-- A pending event has an id, and if the chain knows the id it is the chain's head.
pub pending_head :
    (digest : Event → String) (disk : Generations) (lines : List Line) (events : List Event)
    (e : Event)
    → load_account_events digest lines ≡ value events
    → verify_account_event_references digest disk lines (some e) ≡ value tt
    → (is_text e.event_id ≡ true)
      × (known_id e.event_id events ≡ true → (older : List Event) × (events ≡ e ∷ older))
unfolding verify_account_event_references check_pending
pending_head digest disk lines events e load h =
    let (events0, loaded, h1) = >>=-eq-value (load_account_events digest lines) _ h in
    let eq : events0 ≡ events = ground (arith, load, loaded) in
    let (beats, read, h2) = >>=-eq-value (heartbeat_refs disk.beats) _ h1 in
    let (_, pending, h3) = >>=-eq-value (check_pending digest events0 (some e)) _ h2 in
    (
      ground arith,
      λ known. at_head-inversion events e (
          at_head_known digest events e known
            (subst (λ (xs : List Event). check_pending digest xs (some e) ≡ value tt) eq pending)),
    )
