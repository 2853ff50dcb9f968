-- ===== src/Events/Chain.antt =====
-- What the loader of futures_fund/state_transaction.py accepts: exactly the hash-linked chains.
use gpt_market_neutral_crypt.Prelude.{
  ◌≤◌, ◌≡◌, ◌≢◌, ◌↔◌, refl, ◌⊎◌, String, Bool, true, false, Option, none, some, List, [], ◌∷◌,
  arith, Outcome, value, raised, ◌>>=◌, opt_eq_iff, eq_iff, not, is_text, ltb, ◌>>◌, raise_if,
  value-injective, >>=-eq-value, ◌&&◌, sym, subst, All, ◌∙◌, ap,
}
use gpt_market_neutral_crypt.Time.{Instant}
use gpt_market_neutral_crypt.Events.{
  other_kind, root_account_anchor, account_event, Stamp, aware, unparsed, naive, Event, is_sha256,
  known_id, Line, row, blank, malformed, event_digest, row_valid, load_row, load_from,
  load_account_events, fits, instant_of, linked, is_name,
}

-- A sound row: a supported version with its generation root, a known kind, an id, and a hash that is its own.
abbrev pub IsRow : (Event → String) → Event → Type 0
IsRow digest e =
    ((e.schema_version ≡ some 1)
      ⊎ ((e.schema_version ≡ some 2) × (is_sha256 e.generation_root_sha256 ≡ true)))
    × (e.kind ≢ other_kind)
    × (e.event_id ≢ none)
    × (e.event_id ≢ some "")
    × (e.event_sha256 ≡ event_digest digest e)

abbrev pub Anchors : Event → Type 0
Anchors e =
    (e.lineage_origin ≡ root_account_anchor)
    × (e.previous_event_id ≡ none)
    × (e.previous_event_sha256 ≡ none)

-- `e` names its predecessor by id and hash, starts from the account that it left, and is no
-- earlier.
abbrev pub Follows : Event → Event → Type 0
Follows prior e =
    (e.lineage_origin ≡ account_event)
    × (e.previous_event_id ≡ prior.event_id)
    × (e.previous_event_sha256 ≡ prior.event_sha256)
    × (e.base_account_sha256 ≡ prior.account_state_sha256)
    × ((s t : Instant) × (prior.event_ts ≡ aware s) × (e.event_ts ≡ aware t) × (s ≤ t))

-- `e` stands behind the chain's head, or first.
abbrev pub Fits : List Event → Event → Type 0
Fits [] e = Anchors e × ((t : Instant) × (e.event_ts ≡ aware t))
Fits (prior ∷ older) e = Follows prior e

-- No event of the list has the id.
abbrev pub NewId : Option String → List Event → Type 0
NewId id events = All (λ (e : Event). id ≢ e.event_id) events

-- The chain, newest first.
abbrev pub IsChain : (Event → String) → List Event → Type 0
IsChain digest [] = Unit
IsChain digest (e ∷ events) =
    IsRow digest e
    × (e.account_state_sha256 ≢ none)
    × NewId e.event_id events
    × Fits events e
    × IsChain digest events

pub known_id_iff :
    (id : Option String) (events : List Event) → (known_id id events ≡ false) ↔ NewId id events
unfolding known_id
known_id_iff id [] = (λ h. tt, λ h. refl)
known_id_iff id (e ∷ events) = (
  λ h. (ground (arith, opt_eq_iff id e.event_id), (known_id_iff id events).0 (ground arith)),
  λ h. ground (arith, opt_eq_iff id e.event_id, (known_id_iff id events).1 h.1),
)

instant_found : (s : Stamp) → instant_of s ≢ raised → (t : Instant) × (s ≡ aware t)
instant_found unparsed h = absurd (h refl)
instant_found naive h = absurd (h refl)
instant_found (aware t) h = (t, refl)

linked_of : (l before : Bool) → (raise_if before >> raise_if (not l)) ≡ value tt → l ≡ true
linked_of l before h = ground arith

linked_iff :
    (prior e : Event)
    → (linked prior e ≡ true) ↔ (
        (e.lineage_origin ≡ account_event)
        × (e.previous_event_id ≡ prior.event_id)
        × (e.previous_event_sha256 ≡ prior.event_sha256)
        × (e.base_account_sha256 ≡ prior.account_state_sha256))
linked_iff prior e =
    let by_id = opt_eq_iff e.previous_event_id prior.event_id in
    let by_hash = opt_eq_iff e.previous_event_sha256 prior.event_sha256 in
    let by_state = opt_eq_iff e.base_account_sha256 prior.account_state_sha256 in
    (λ h. ground (arith, by_id, by_hash, by_state), λ h. ground (arith, by_id, by_hash, by_state))

pub fits_iff : (events : List Event) (e : Event) → (fits events e ≡ value tt) ↔ Fits events e
unfolding fits
fits_iff [] e =
    (λ h. (ground arith, instant_found e.event_ts (λ p. ground arith)), λ h. ground arith)
fits_iff (prior ∷ older) e = (
  λ h.
      let (t, et) = instant_found e.event_ts (λ p. ground arith) in
      let (s, es) = instant_found prior.event_ts (λ p. ground arith) in
      let links = (linked_iff prior e).0 (linked_of (linked prior e) (ltb t s) (ground arith)) in
      (links.0, links.1, links.2, links.3, (s, t, es, et, ground arith)),
  λ h. ground (arith, (linked_iff prior e).1 (h.0, h.1, h.2, h.3)),
)

is_name_iff : (o : Option String) → (is_name o ≡ true) ↔ ((o ≢ none) × (o ≢ some ""))
is_name_iff none = (λ h. cc, λ h. absurd (h.0 refl))
is_name_iff (some s) = (
  λ h. (λ e. cc, λ e. ground (arith, eq_iff s "")),
  λ h. ground (arith, eq_iff s "", some_empty s h.1),
)
  where
    some_empty : (s : String) → some s ≢ some "" → s ≢ ""
    some_empty s h e = h (ap some e)

pub row_valid_iff :
    (digest : Event → String) (e : Event) → (row_valid digest e ≡ true) ↔ IsRow digest e
unfolding row_valid
row_valid_iff digest e = (
  λ h. ground (arith, opt_eq_iff e.event_sha256 (event_digest digest e), is_name_iff e.event_id),
  λ h. ground (
    arith,
    opt_eq_iff e.event_sha256 (event_digest digest e),
    (is_name_iff e.event_id).1 (h.2, h.3),
  ),
)

checks_iff :
    {A : Type 0} (a b : Bool) (f : Outcome (Unit {0})) (x y : A)
    → ((raise_if a >>= λ _. raise_if b >>= λ _. f >>= λ _. value x) ≡ value y)
      ↔ ((a ≡ false) × (b ≡ false) × (f ≡ value tt) × (y ≡ x))
checks_iff true b f x y = (λ h. cc, λ h. cc (h.0))
checks_iff false true f x y = (λ h. cc, λ h. cc (h.1))
checks_iff false false raised x y = (λ h. cc, λ h. cc (h.2))
checks_iff false false (value u) x y =
    (λ h. (refl, refl, refl, sym (value-injective h)), λ h. ap value (sym h.3))

is_text_some : (o : Option String) → is_text o ≡ true → o ≢ none
is_text_some none h = cc
is_text_some (some s) h = λ e. cc

some_is_text : (o : Option String) → o ≢ none → is_text o ≡ true
some_is_text none h = absurd (h refl)
some_is_text (some s) h = refl

-- One row is accepted exactly if it extends the chain.
pub load_row_iff :
    (digest : Event → String) (events events' : List Event) (e : Event)
    → (load_row digest events e ≡ value events') ↔ (
        IsRow digest e
        × (e.account_state_sha256 ≢ none)
        × NewId e.event_id events
        × Fits events e
        × (events' ≡ e ∷ events))
unfolding load_row
load_row_iff digest events events' e =
    let valid = row_valid_iff digest e in
    let unseen = known_id_iff e.event_id events in
    let fitting = fits_iff events e in
    let checks =
      checks_iff (not (row_valid digest e && is_text e.account_state_sha256))
        (known_id e.event_id events) (fits events e) (e ∷ events) events' in
    (
      λ h.
          let (a, b, c, d) = checks.0 h in
          (
            valid.0 (ground arith),
            is_text_some e.account_state_sha256 (ground arith),
            unseen.0 b,
            fitting.0 c,
            d,
          ),
      λ h. checks.1 (
        ground (arith, valid.1 h.0, some_is_text e.account_state_sha256 h.1),
        unseen.1 h.2,
        fitting.1 h.3,
        h.4,
      ),
    )

-- The chain that a chain's loader goes on to build, newest first, from further rows.
pub load_from-IsChain :
    (digest : Event → String) (events events' : List Event) (lines : List Line)
    → IsChain digest events
    → load_from digest events lines ≡ value events'
    → IsChain digest events'
unfolding load_from
load_from-IsChain digest events events' [] c h = subst (IsChain digest) (value-injective h) c
load_from-IsChain digest events events' (blank ∷ lines) c h =
    load_from-IsChain digest events events' lines c h
load_from-IsChain digest events events' (malformed ∷ lines) c h = cc
load_from-IsChain digest events events' (row e ∷ lines) c h =
    let (next, read, rest) = >>=-eq-value (load_row digest events e) _ h in
    let (a, b, n, f, eq) = (load_row_iff digest events next e).0 read in
    load_from-IsChain digest next events' lines (subst (IsChain digest) (sym eq) (a, b, n, f, c))
      rest

-- Whatever the loader returns is a chain: each event is sound, names its predecessor by id and
-- hash, starts from the account state that it left, is no earlier, and no id occurs twice.
pub load-IsChain :
    (digest : Event → String) (lines : List Line) (events : List Event)
    → load_account_events digest lines ≡ value events
    → IsChain digest events
unfolding load_account_events
load-IsChain digest lines events h = load_from-IsChain digest [] events lines tt h

-- The file of a chain: its events as rows, the oldest first, behind `rest`.
abbrev pub rows : List Event → List Line → List Line
rows [] rest = rest
rows (e ∷ events) rest = rows events (row e ∷ rest)

pub load_from-rows :
    (digest : Event → String) (events : List Event) (rest : List Line)
    → IsChain digest events
    → load_from digest [] (rows events rest) ≡ load_from digest events rest
load_from-rows digest [] rest c = refl
load_from-rows digest (e ∷ events) rest c =
    load_from-rows digest events (row e ∷ rest) c.4
    ∙ (unfold load_from in
        rw ((load_row_iff digest events (e ∷ events) e).1 (c.0, c.1, c.2, c.3, refl)))

-- Every chain is loaded back from its file.
pub load-rows :
    (digest : Event → String) (events : List Event)
    → IsChain digest events
    → load_account_events digest (rows events []) ≡ value events
unfolding load_account_events load_from
load-rows digest events c = load_from-rows digest events [] c
