-- ===== src/Events/Append/Growth.antt =====
-- How `append_account_event` of futures_fund/state_transaction.py changes the chain.
use gpt_market_neutral_crypt.Prelude.{
  ◌≡◌, ◌≢◌, ◌↔◌, refl, String, Bool, true, not, Option, none, some, List, [], ◌∷◌, arith, ◌⊎◌, inl,
  inr, Outcome, value, raised, ◌>>◌, raise_if, opt_eq, opt_eq_iff, >>=-eq-value, sym, ap, ◌∙◌,
  Outcome-cases, Bool-cases, value-injective, value-ne-raised,
}
use gpt_market_neutral_crypt.Events.{
  Event, Line, load_account_events, validate_next, row_valid, fits, load_row, load_from, row,
}
use gpt_market_neutral_crypt.Events.Chain.{
  IsRow, Fits, NewId, IsChain, rows, load_from-rows, load_row_iff, load-rows, load-IsChain,
  row_valid_iff, fits_iff,
}
use gpt_market_neutral_crypt.Events.References.{
  Generations, event_eq_iff, verify_account_event_references,
}
use gpt_market_neutral_crypt.Events.Append.{same_id, settle, publish, append_account_event}

same_id-nil : (id : Option String) (events : List Event) → same_id id events ≡ [] → NewId id events
unfolding same_id
same_id-nil id [] h = tt
same_id-nil id (e ∷ events) h = elim (Bool-cases (opt_eq e.event_id id)) [
  | inl t ↦ absurd (ground arith)
  | inr f ↦ (λ p. ground (arith, opt_eq_iff e.event_id id), same_id-nil id events (ground arith))
]

pub same_id-new :
    (id : Option String) (events : List Event) → NewId id events → same_id id events ≡ []
unfolding same_id
same_id-new id [] h = refl
same_id-new id (e ∷ events) h = ground (arith, opt_eq_iff e.event_id id, same_id-new id events h.1)

raise_if_value : (b : Bool) (m : Outcome (Unit {0})) → (raise_if (not b) >> m) ≡ value tt → b ≡ true
raise_if_value b m h = ground arith

raise_if_rest :
    (b : Bool) (m : Outcome (Unit {0})) → (raise_if (not b) >> m) ≡ value tt → m ≡ value tt
raise_if_rest b m h = ground arith

validate_next_iff :
    (digest : Event → String) (events : List Event) (e : Event)
    → (validate_next digest events e ≡ value tt) ↔ (IsRow digest e × Fits events e)
unfolding validate_next
validate_next_iff digest events e =
    let valid = row_valid_iff digest e in
    let fitting = fits_iff events e in
    (
      λ h. (
        valid.0 (raise_if_value (row_valid digest e) (fits events e) h),
        fitting.0 (raise_if_rest (row_valid digest e) (fits events e) h),
      ),
      λ h. ground (arith, valid.1 h.0, fitting.1 h.1),
    )

-- What a successful end has found.
settle_cases :
    (same : List Event) (e : Event) (fit : Outcome (Unit {0})) (reread : Outcome (List Event))
    (lines file lines' : List Line)
    → settle same e fit reread lines file ≡ (value tt, lines')
    → ((lines' ≡ lines) × (same ≡ e ∷ []))
      ⊎ ((lines' ≡ file)
          × (same ≡ [])
          × (fit ≡ value tt)
          × ((events : List Event) × (reread ≡ value events)))
unfolding settle
settle_cases [] e raised reread lines file lines' h = absurd (ground arith)
settle_cases [] e (value u) raised lines file lines' h = absurd (ground arith)
settle_cases [] e (value u) (value events) lines file lines' h =
    inr (ground arith, refl, refl, (events, refl))
settle_cases (x ∷ []) e fit reread lines file lines' h =
    inl (ground arith, ground (arith, event_eq_iff x e))
settle_cases (x ∷ y ∷ s) e fit reread lines file lines' h = absurd (ground arith)

reread_grows :
    (digest : Event → String) (events found : List Event) (e : Event)
    → IsChain digest events
    → load_account_events digest (rows (e ∷ events) []) ≡ value found
    → IsChain digest (e ∷ events) × (found ≡ e ∷ events)
unfolding load_account_events load_from
reread_grows digest events found e c h =
    let (next, read, last) =
      >>=-eq-value (load_row digest events e) _
        (sym (load_from-rows digest events (row e ∷ []) c) ∙ h) in
    let (a, b, n, f, grown) = (load_row_iff digest events next e).0 read in
    ((a, b, n, f, c), sym (value-injective last) ∙ grown)

append_inversion :
    (digest : Event → String) (disk : Generations) (lines lines' : List Line) (e : Event)
    (r : Outcome (Unit {0}))
    → append_account_event digest disk lines e ≡ (r, lines')
    → (lines' ≡ lines) × (r ≡ raised)
      ⊎ ((events : List Event) × (load_account_events digest lines ≡ value events)
          × (publish digest lines events e ≡ (r, lines')))
unfolding append_account_event
append_inversion digest disk lines lines' e r h =
    elim (Outcome-cases (verify_account_event_references digest disk lines (some e))) [
      | inl v ↦ inl (ground arith)
      | inr (u, v) ↦ elim (Outcome-cases (load_account_events digest lines)) [
        | inl l ↦ inl (ground arith)
        | inr (events, l) ↦ inr (events, l, ground arith)
      ]
    ]

publish_lem :
    (digest : Event → String) (lines : List Line) (events : List Event) (e : Event)
    → publish digest lines events e
      ≡ settle
          (same_id e.event_id events)
          e
          (validate_next digest events e)
          (load_account_events digest (rows (e ∷ events) []))
          lines
          (rows (e ∷ events) [])
unfolding publish
publish_lem digest lines events e = refl

-- A successful append has found the event in the chain and leaves the file, or the file holds the
-- old chain with the new event at its head, and reads back as that chain.
pub append_grows :
    (digest : Event → String) (disk : Generations) (lines lines' : List Line) (e : Event)
    → append_account_event digest disk lines e ≡ (value tt, lines')
    → (events : List Event) × (load_account_events digest lines ≡ value events)
      × (((lines' ≡ lines) × (same_id e.event_id events ≡ e ∷ []))
          ⊎ ((load_account_events digest lines' ≡ value (e ∷ events))
              × IsChain digest (e ∷ events)))
append_grows digest disk lines lines' e h =
    elim (append_inversion digest disk lines lines' e (value tt) h) [
      | inl (_, bad) ↦ absurd (value-ne-raised bad)
      | inr (events, l, p) ↦ (
        events,
        l,
        elim (settle_cases _ e _ _ lines _ lines' (sym (publish_lem digest lines events e) ∙ p)) [
          | inl old ↦ inl old
          | inr (file, same, fit, (found, reread)) ↦
              let (chain, eq) =
                reread_grows digest events found e (load-IsChain digest lines events l) reread in
              inr (ap (load_account_events digest) file ∙ reread ∙ ap value eq, chain)
        ],
      )
    ]

-- An event that the chain holds is left there.
append_known :
    (digest : Event → String) (disk : Generations) (lines : List Line) (e : Event)
    (events : List Event)
    → verify_account_event_references digest disk lines (some e) ≡ value tt
    → load_account_events digest lines ≡ value events
    → same_id e.event_id events ≡ e ∷ []
    → append_account_event digest disk lines e ≡ (value tt, lines)
unfolding append_account_event publish settle
append_known digest disk lines e events v l s = ground (arith, (event_eq_iff e e).1 refl)

same_id-head :
    (e : Event) (events : List Event)
    → NewId e.event_id events
    → same_id e.event_id (e ∷ events) ≡ e ∷ []
unfolding same_id
same_id-head e events n =
    ground (arith, (opt_eq_iff e.event_id e.event_id).1 refl, same_id-new e.event_id events n)

-- Every append that succeeded has verified the references.
pub append_verified :
    (digest : Event → String) (disk : Generations) (lines lines' : List Line) (e : Event)
    → append_account_event digest disk lines e ≡ (value tt, lines')
    → verify_account_event_references digest disk lines (some e) ≡ value tt
unfolding append_account_event
append_verified digest disk lines lines' e h =
    elim (Outcome-cases (verify_account_event_references digest disk lines (some e))) [
      | inl v ↦ absurd (ground arith)
      | inr (tt, v) ↦ v
    ]

-- Repeating an append that succeeded changes nothing, whichever generations have been published
-- since, as long as the references verify.
pub append_replay :
    (digest : Event → String) (disk disk' : Generations) (lines lines' : List Line) (e : Event)
    → append_account_event digest disk lines e ≡ (value tt, lines')
    → verify_account_event_references digest disk' lines' (some e) ≡ value tt
    → append_account_event digest disk' lines' e ≡ (value tt, lines')
append_replay digest disk disk' lines lines' e h v =
    let (events, l, cases) = append_grows digest disk lines lines' e h in
    elim cases [
      | inl (same, there) ↦
          append_known digest disk' lines' e events v (ap (load_account_events digest) same ∙ l)
            there
      | inr (grown, chain) ↦
          append_known digest disk' lines' e (e ∷ events) v grown (same_id-head e events chain.2)
    ]

settle_raised :
    (same : List Event) (e : Event) (fit : Outcome (Unit {0})) (reread : Outcome (List Event))
    (lines file lines' : List Line)
    → settle same e fit reread lines file ≡ (raised, lines')
    → (lines' ≡ lines) ⊎ ((same ≡ []) × (fit ≡ value tt) × (reread ≡ raised))
unfolding settle
settle_raised [] e raised reread lines file lines' h = inl (ground arith)
settle_raised [] e (value u) raised lines file lines' h = inr (refl, refl, refl)
settle_raised [] e (value u) (value events) lines file lines' h = absurd (ground arith)
settle_raised (x ∷ []) e fit reread lines file lines' h = inl (ground arith)
settle_raised (x ∷ y ∷ s) e fit reread lines file lines' h = inl (ground arith)

-- An append that raises has left the file alone, if the event carries an account state.
pub append_atomic :
    (digest : Event → String) (disk : Generations) (lines lines' : List Line) (e : Event)
    → e.account_state_sha256 ≢ none
    → append_account_event digest disk lines e ≡ (raised, lines')
    → lines' ≡ lines
append_atomic digest disk lines lines' e s h =
    elim (append_inversion digest disk lines lines' e raised h) [
      | inl (same, _) ↦ same
      | inr (events, l, p) ↦
          elim (settle_raised _ e _ _ lines _ lines'
            (sym (publish_lem digest lines events e) ∙ p)) [
              | inl same ↦ same
              | inr (new, fit, lost) ↦
                  let (sound, fits_there) = (validate_next_iff digest events e).0 fit in
                  let chain : IsChain digest (e ∷ events) = (
                    sound,
                    s,
                    same_id-nil e.event_id events new,
                    fits_there,
                    load-IsChain digest lines events l,
                  ) in
                  absurd (value-ne-raised (sym (load-rows digest (e ∷ events) chain) ∙ lost))
            ]
    ]
