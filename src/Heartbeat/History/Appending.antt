-- ===== src/Heartbeat/History/Appending.antt =====
-- What `append_heartbeat` of futures_fund/heartbeat.py writes, keeps and refuses.
use gpt_market_neutral_crypt.Prelude.{
  ◌≡◌, ◌≢◌, ◌↔◌, refl, ◌⊎◌, inl, inr, Bool, true, false, Option, none, some, List, [], ◌∷◌, ◌++◌,
  String, arith, sym, ap, ◌∙◌, subst, In, Outcome, value, raised, >>=-eq-value, value-injective,
  if◌then◌else◌, All, Bool-cases,
}
use gpt_market_neutral_crypt.Ledger.{jsonl_rows}
use gpt_market_neutral_crypt.Ledger.Rows.{file_of}
use gpt_market_neutral_crypt.Heartbeat.{
  HeartbeatRecord, HeartbeatDisk, HeartbeatCanonical, HeartbeatOthers,
}
use gpt_market_neutral_crypt.Heartbeat.Records.{
  record_eq, record_eq_iff, record_identity, identity_eq, sort_by,
}
use gpt_market_neutral_crypt.Heartbeat.Records.Sorting.{sort_by-In, In-append}
use gpt_market_neutral_crypt.Heartbeat.History.{
  file_key, is_scheduled, keep_row, same_identity, other_identities, verify_heartbeat_history,
  extends, extended, appended_rows, store_rows, append_heartbeat,
}
use gpt_market_neutral_crypt.Heartbeat.History.Chain.{
  NewIdentity, identity_eq_iff, identity_eq_self,
}

same_identity_iff :
    (id : String × String) (m : Outcome (String × String))
    → (same_identity id m ≡ true) ↔ (m ≡ value id)
unfolding same_identity
same_identity_iff id raised = (λ h. absurd (ground arith), λ h. absurd (ground arith))
same_identity_iff id (value x) = (
  λ h. ap value (identity_eq_iff x id h),
  λ h. subst (λ y. identity_eq y id ≡ true) (sym (value-injective h)) (identity_eq_self id),
)

own_or_other :
    (id : String × String) (x : HeartbeatRecord)
    → (record_identity x ≡ value id) ⊎ (record_identity x ≢ value id)
own_or_other id x =
    let named = same_identity_iff id (record_identity x) in
    elim (Bool-cases (same_identity id (record_identity x))) [
      | inl own ↦ inl (named.0 own)
      | inr other ↦ inr (λ own. absurd (ground (arith, named.1 own)))
    ]

All-In :
    {P : HeartbeatRecord → Type 0} (rows : List HeartbeatRecord)
    → ((x : HeartbeatRecord) → In x rows → P x)
    → All P rows
All-In [] every = tt
All-In (x ∷ rows) every = (every x (inl refl), All-In rows (λ y there. every y (inr there)))

-- What is known of a row that the loop has passed, by its result.
keep_row-cases :
    (x : HeartbeatRecord) (match scheduled same : Bool)
    (rest : Outcome (Option (List HeartbeatRecord))) (out : Option (List HeartbeatRecord))
    → keep_row match scheduled same x rest ≡ value out
    → ((match ≡ true) × (same ≡ true) × (out ≡ none))
      ⊎ ((match ≡ true) × (scheduled ≡ false) × (rest ≡ value out))
      ⊎ ((match ≡ false) × (rest ≡ value none) × (out ≡ none))
      ⊎ ((match ≡ false)
          × ((kept : List HeartbeatRecord) × (rest ≡ value (some kept)) × (out ≡ some (x ∷ kept))))
unfolding keep_row
keep_row-cases x false scheduled same raised out h = absurd (ground arith)
keep_row-cases x false scheduled same (value none) out h =
    inr (inr (inl (refl, refl, sym (value-injective h))))
keep_row-cases x false scheduled same (value (some kept)) out h =
    inr (inr (inr (refl, (kept, refl, sym (value-injective h)))))
keep_row-cases x true true false rest out h = absurd (ground arith)
keep_row-cases x true true true rest out h = inl (refl, refl, sym (value-injective h))
keep_row-cases x true false true rest out h = inl (refl, refl, sym (value-injective h))
keep_row-cases x true false false rest out h = inr (inl (refl, refl, h))

-- The row is there already.
other_identities-none :
    (id : String × String) (r : HeartbeatRecord) (rows : List HeartbeatRecord)
    → other_identities id r rows ≡ value none
    → In r rows
unfolding other_identities
other_identities-none id r [] h = absurd (ground arith)
other_identities-none id r (x ∷ rows) h =
    elim (keep_row-cases x (same_identity id (record_identity x)) (is_scheduled r) (record_eq x r)
      (other_identities id r rows) none h) [
        | inl (_, same, _) ↦ inl (sym ((record_eq_iff x r).0 same))
        | inr (inl (_, _, rest)) ↦ inr (other_identities-none id r rows rest)
        | inr (inr (inl (_, rest, _))) ↦ inr (other_identities-none id r rows rest)
        | inr (inr (inr (_, (kept, _, no_rows)))) ↦ absurd (ground arith)
      ]

-- The rows that are kept are those of other identities; where the new row is scheduled, there are no others.
abbrev Keeps :
    String × String → HeartbeatRecord → List HeartbeatRecord → List HeartbeatRecord → Type 0
Keeps id r rows kept =
    ((x : HeartbeatRecord) → In x kept ↔ (In x rows × (record_identity x ≢ value id)))
    × (is_scheduled r ≡ true → NewIdentity id rows)

passed_nothing : (id : String × String) (r : HeartbeatRecord) → Keeps id r [] []
passed_nothing id r = (λ x. (λ empty. absurd empty, λ h. h.0), λ _. tt)

passed_own :
    (id : String × String) (r y : HeartbeatRecord) (rows kept : List HeartbeatRecord)
    → record_identity y ≡ value id
    → is_scheduled r ≡ false
    → Keeps id r rows kept
    → Keeps id r (y ∷ rows) kept
passed_own id r y rows kept own free keeps = (
  λ x. (
    λ h. (inr (((keeps.0 x).0 h).0), ((keeps.0 x).0 h).1),
    λ h. elim h.0 [
      | inl same ↦ absurd (h.1 (ap record_identity same ∙ own))
      | inr later ↦ (keeps.0 x).1 (later, h.1)
    ],
  ),
  λ scheduled. absurd (ground arith),
)

passed_other :
    (id : String × String) (r y : HeartbeatRecord) (rows kept : List HeartbeatRecord)
    → record_identity y ≢ value id
    → Keeps id r rows kept
    → Keeps id r (y ∷ rows) (y ∷ kept)
passed_other id r y rows kept other keeps = (
  λ x. (
    λ h. elim h [
      | inl same ↦ (inl same, λ own. other (ap record_identity (sym same) ∙ own))
      | inr later ↦ (inr (((keeps.0 x).0 later).0), ((keeps.0 x).0 later).1)
    ],
    λ h. elim h.0 [ inl same ↦ inl same | inr later ↦ inr ((keeps.0 x).1 (later, h.1)) ],
  ),
  λ scheduled. (other, keeps.1 scheduled),
)

other_identities-Keeps :
    (id : String × String) (r : HeartbeatRecord) (rows kept : List HeartbeatRecord)
    → other_identities id r rows ≡ value (some kept)
    → Keeps id r rows kept
unfolding other_identities
other_identities-Keeps id r [] kept h =
    let empty : [] ≡ kept = ground (arith, h) in
    subst (λ x. Keeps id r [] x) empty (passed_nothing id r)
other_identities-Keeps id r (y ∷ rows) kept h =
    let named = same_identity_iff id (record_identity y) in
    elim (keep_row-cases y (same_identity id (record_identity y)) (is_scheduled r) (record_eq y r)
      (other_identities id r rows) (some kept) h) [
        | inl (_, _, never) ↦ absurd (ground arith)
        | inr (inl (match, free, rest)) ↦
            passed_own id r y rows kept (named.0 match) free
              (other_identities-Keeps id r rows kept rest)
        | inr (inr (inl (_, _, never))) ↦ absurd (ground arith)
        | inr (inr (inr (other, (others, rest, all)))) ↦
            let differs : record_identity y ≢ value id =
              λ own. absurd (ground (arith, named.1 own)) in
            let split : y ∷ others ≡ kept = ground (arith, all) in
            subst (λ x. Keeps id r (y ∷ rows) x) split
              (passed_other id r y rows others differs
                (other_identities-Keeps id r rows others rest))
      ]

module _ (sha : HeartbeatCanonical) (o : HeartbeatOthers) where
  -- The ledger behind a new row: the row, and the rows of other identities.
  abbrev Adds :
      String × String → HeartbeatRecord → List HeartbeatRecord → List HeartbeatRecord → Type 0
  Adds id r rows new =
      In r new
      × All (λ (x : HeartbeatRecord). (record_identity x ≡ value id) ⊎ In x new) rows
      × All (λ (x : HeartbeatRecord). (x ≡ r) ⊎ (In x rows × (record_identity x ≢ value id))) new
      × ((is_scheduled r ≡ false) ⊎ NewIdentity id rows)

  Keeps-Adds :
      (id : String × String) (r : HeartbeatRecord) (rows kept : List HeartbeatRecord)
      → Keeps id r rows kept
      → Adds id r rows (sort_by file_key (kept ++ r ∷ []))
  Keeps-Adds id r rows kept keeps =
      let sorted = λ (x : HeartbeatRecord). sort_by-In file_key x (kept ++ r ∷ []) in
      let split = λ (x : HeartbeatRecord). In-append x r kept in
      (
        (sorted r).1 ((split r).1 (inr refl)),
        All-In rows (λ x there. elim (own_or_other id x) [
          | inl own ↦ inl own
          | inr other ↦ inr ((sorted x).1 ((split x).1 (inl ((keeps.0 x).1 (there, other)))))
        ]),
        All-In (sort_by file_key (kept ++ r ∷ [])) (λ x there.
            elim ((split x).0 ((sorted x).0 there)) [
              | inl old ↦ inr ((keeps.0 x).0 old)
              | inr own ↦ inl own
            ]),
        elim (Bool-cases (is_scheduled r)) [
          | inl scheduled ↦ inr (keeps.1 scheduled)
          | inr free ↦ inl free
        ],
      )

  -- What the append writes, for the rows that it has read.
  abbrev Written :
      HeartbeatDisk
      → HeartbeatRecord
      → List HeartbeatRecord
      → String × String
      → Option (List HeartbeatRecord)
      → Type 0
  Written d r rows id none = In r rows
  Written d r rows id (some new) = Adds id r rows new

  appended_rows-Written :
      (d : HeartbeatDisk) (r : HeartbeatRecord) (allow : Option HeartbeatRecord)
      (out : Option (List HeartbeatRecord))
      → appended_rows sha o d r allow ≡ value out
      → (rows : List HeartbeatRecord) × (id : String × String) × (jsonl_rows d.rows ≡ value rows)
        × (record_identity r ≡ value id)
        × (verify_heartbeat_history sha o d allow ≡ value tt)
        × Written d r rows id out
  unfolding appended_rows extended
  appended_rows-Written d r allow out h =
      let (u, verified, h1) = >>=-eq-value (verify_heartbeat_history sha o d allow) _ h in
      let (id, named, h2) = >>=-eq-value (record_identity r) _ h1 in
      let (rows, read, h3) = >>=-eq-value (jsonl_rows d.rows) _ h2 in
      let (kept, others, h4) = >>=-eq-value (other_identities id r rows) _ h3 in
      (rows, id, read, named, verified ∙ refl, go rows id kept others h4)
    where
      go :
          (rows : List HeartbeatRecord) (id : String × String)
          (kept : Option (List HeartbeatRecord))
          → other_identities id r rows ≡ value kept
          → extended sha o r kept ≡ value out
          → Written d r rows id out
      go rows id none others h =
          subst (λ x. Written d r rows id x) (value-injective h)
            (other_identities-none id r rows others)
      go rows id (some kept) others h =
          let (_, _, h5) = >>=-eq-value (extends sha o r kept) _ h in
          subst (λ x. Written d r rows id x) (value-injective h5)
            (Keeps-Adds id r rows kept (other_identities-Keeps id r rows kept others))

  -- How an append ends: it raises, it finds the row, or it writes a ledger.
  abbrev pub AppendEnds :
      HeartbeatDisk
      → HeartbeatRecord
      → Option HeartbeatRecord
      → Outcome (Unit {0}) × HeartbeatDisk
      → Type 0
  AppendEnds d r allow end =
      (end ≡ (raised, d))
      ⊎ ((rows : List HeartbeatRecord) × (id : String × String) × (jsonl_rows d.rows ≡ value rows)
          × (record_identity r ≡ value id)
          × (verify_heartbeat_history sha o d allow ≡ value tt)
          × ((In r rows × (end ≡ (value tt, d)))
              ⊎ ((new : List HeartbeatRecord) × Adds id r rows new
                  × (end ≡ (value tt, record d { rows = file_of new })))))

  store_rows-Ends :
      (d : HeartbeatDisk) (r : HeartbeatRecord) (allow : Option HeartbeatRecord)
      (m : Outcome (Option (List HeartbeatRecord)))
      → appended_rows sha o d r allow ≡ m
      → AppendEnds d r allow (store_rows sha o d m)
  unfolding store_rows
  store_rows-Ends d r allow raised h = inl refl
  store_rows-Ends d r allow (value none) h =
      let (rows, id, read, named, verified, there) = appended_rows-Written d r allow none h in
      inr (rows, id, read, named, verified, inl (there, refl))
  store_rows-Ends d r allow (value (some new)) h =
      let (rows, id, read, named, verified, adds) = appended_rows-Written d r allow (some new) h in
      inr (rows, id, read, named, verified, inr (new, adds, refl))

  -- An append that succeeds has verified the history. The row was in the ledger already and nothing is written, or the new
  -- ledger holds the row and exactly the old rows of other identities; a row with a schedule slot never replaces a row of its
  -- identity. An append that raises writes nothing.
  pub append_heartbeat_lem :
      (d : HeartbeatDisk) (r : HeartbeatRecord) (replaying : Bool)
      → AppendEnds d r (if replaying then some r else none) (append_heartbeat sha o d r replaying)
  unfolding append_heartbeat
  append_heartbeat_lem d r replaying =
      let allow : Option HeartbeatRecord = if replaying then some r else none in
      store_rows-Ends d r allow (appended_rows sha o d r allow) refl
