-- ===== src/Events/Append/Preparing.antt =====
-- What `prepare_account_event` of futures_fund/state_transaction.py makes of an intent.
use gpt_market_neutral_crypt.Prelude.{
  ◌≡◌, refl, String, none, some, List, [], ◌∷◌, subst, value, >>=-eq-value, value-injective,
}
use gpt_market_neutral_crypt.Events.{Event, Line, load_account_events, validate_next}
use gpt_market_neutral_crypt.Events.Chain.{NewId}
use gpt_market_neutral_crypt.Events.References.{Generations, verify_account_event_references}
use gpt_market_neutral_crypt.Events.References.Fresh.{verify_fresh}
use gpt_market_neutral_crypt.Events.Append.{
  Intent, next_body, check_base, sealed, prepare_account_event,
}

-- The event carries what the intent names.
abbrev pub Carries : Event → Intent → Type 0
Carries e i =
    (e.schema_version ≡ some 2)
    × (e.event_id ≡ i.event_id)
    × (e.kind ≡ i.kind)
    × (e.account_state_sha256 ≡ i.account_state_sha256)
    × (e.generation_root_sha256 ≡ i.generation_root_sha256)
    × (e.base_account_sha256 ≡ i.base_account_sha256)

sealed-Carries :
    (digest : Event → String) (events : List Event) (i : Intent)
    → Carries (sealed digest (next_body events i)) i
unfolding next_body
sealed-Carries digest [] i = (refl, refl, refl, refl, refl, refl)
sealed-Carries digest (x ∷ events) i = (refl, refl, refl, refl, refl, refl)

-- A prepared event carries what its intent names, and fits behind the chain; it verifies as pending if its id is new.
pub prepare_account_event_lem :
    (digest : Event → String) (disk : Generations) (lines : List Line) (i : Intent) (e : Event)
    → prepare_account_event digest disk lines i ≡ value e
    → Carries e i
      × ((events : List Event) × (load_account_events digest lines ≡ value events)
          × (validate_next digest events e ≡ value tt)
          × (NewId e.event_id events
              → verify_account_event_references digest disk lines (some e) ≡ value tt))
unfolding prepare_account_event
prepare_account_event_lem digest disk lines i e h =
    let (_, refs, h1) = >>=-eq-value (verify_account_event_references digest disk lines none) _ h in
    let (events, load, h2) = >>=-eq-value (load_account_events digest lines) _ h1 in
    let (_, base, h3) = >>=-eq-value (check_base disk events i) _ h2 in
    let (_, fit, h4) =
      >>=-eq-value (validate_next digest events (sealed digest (next_body events i))) _ h3 in
    let same : sealed digest (next_body events i) ≡ e = value-injective h4 in
    let fits = subst (λ (x : Event). validate_next digest events x ≡ value tt) same fit in
    (
      subst (λ (x : Event). Carries x i) same (sealed-Carries digest events i),
      (events, load, fits, λ n. verify_fresh digest disk lines events e load n fits refs),
    )
