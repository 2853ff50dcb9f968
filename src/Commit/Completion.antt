-- ===== src/Commit/Completion.antt =====
-- When the completion marker of a generation of futures_fund/reconcile_commit.py is intact:
-- `_verify_completion_manifest` and `cycle_is_complete`.
use Prim.Native.Nat.{Ordering}
use Prim.Native.String
use gpt_market_neutral_crypt.Prelude.{
  ℕ, Bool, true, false, ◌||◌, ◌&&◌, not, Option, none, some, List, [], ◌∷◌, String, str_eq, opt_eq,
  leb, ltb, ◌==◌, if◌then◌else◌, Outcome, value, raised, ◌>>=◌, ◌>>◌, raise_if, lookup, pop,
}
use gpt_market_neutral_crypt.Events.{Event, reconcile, load_account_events}
use gpt_market_neutral_crypt.Events.References.{event_eq, kind_eq}
use gpt_market_neutral_crypt.Ledger.{LedgerRow, EquityRow, RowLine, jsonl_rows}
use gpt_market_neutral_crypt.Commit.{
  Artifact, json, account_event_of, Artifacts, Canonical, Others, Manifest, Complete, present, Disk,
}

-- `_cycle_row`: the only row of a cycle.
unfoldable pub matches {ℓ} : {A : Type ℓ} → (A → ℕ) → ℕ → List A → List A
matches cycle_of c [] = []
matches cycle_of c (r ∷ rows) =
    let rest = matches cycle_of c rows in if cycle_of r == c then r ∷ rest else rest

unfoldable pub only {ℓ} : {A : Type ℓ} → List A → Outcome A
only (r ∷ []) = value r
only _ = raised

unfoldable pub cycle_row {ℓ} : {A : Type ℓ} → (A → ℕ) → ℕ → List (RowLine A) → Outcome A
unfolding matches only
cycle_row cycle_of c lines = do rows ← jsonl_rows lines; only (matches cycle_of c rows)

-- `sorted(….items())` on texts that are keys.
insert_name : String × String → List (String × String) → List (String × String)
insert_name x [] = x ∷ []
insert_name x (y ∷ ys) =
    let rest = insert_name x ys in
    elim (Prim.Native.String.compare x.0 y.0) [ Ordering.gt ↦ y ∷ rest | _ ↦ x ∷ y ∷ ys ]

unfoldable pub sort_names : List (String × String) → List (String × String)
unfolding insert_name
sort_names [] = []
sort_names (x ∷ xs) = insert_name x (sort_names xs)

module _ (sha : Canonical) where
  abbrev pub artifact_sha : Artifact → String
  artifact_sha (json s) = sha.of_text s
  artifact_sha (account_event_of e) = sha.of_event e

  abbrev pub ledger_sha : LedgerRow → String
  ledger_sha r = sha.of_text r.text

  abbrev pub names_sha : Artifacts → List (String × String)
  names_sha [] = []
  names_sha ((name, v) ∷ rest) = (name, artifact_sha v) ∷ names_sha rest

  module _ (o : Others) where
    -- A JSON object of the artifacts that is no event.
    abbrev text_of : Option Artifact → Option String
    text_of (some (json s)) = some s
    text_of _ = none

    -- The root over a state and a provenance that are there.
    unfoldable pub root_of :
        String
        → ℕ
        → String
        → Artifacts
        → LedgerRow
        → EquityRow
        → Option String
        → Option String
        → Outcome String
    root_of commit_id cycle cadence artifacts ledger equity (some account) (some provenance) = do
      raise_if (not (o.provenance_valid provenance))
      value (
          sha.of_root (record {
            commit_id = commit_id;
            cycle = cycle;
            cadence = cadence;
            artifact_sha256 = sort_names (names_sha artifacts);
            ledger_sha256 = ledger_sha ledger;
            equity_sha256 = sha.of_equity equity;
            account_state_sha256 = sha.of_text account;
            runtime_provenance_sha256 = sha.of_text provenance;
          }))
    root_of commit_id cycle cadence artifacts ledger equity _ _ = raised

    -- `_reconcile_generation_root_sha256`
    unfoldable pub generation_root_sha256 :
        String → ℕ → String → Artifacts → LedgerRow → EquityRow → Outcome String
    unfolding root_of lookup
    generation_root_sha256 commit_id cycle cadence artifacts ledger equity =
        root_of commit_id cycle cadence artifacts ledger equity
          (text_of (lookup "account_state" artifacts))
          (text_of (lookup "runtime_provenance" artifacts))

    -- The listed artifacts, where each is there with its hash.
    unfoldable pub read_values : Artifacts → List (String × String) → Option Artifacts
    unfolding lookup
    read_values files [] = some []
    read_values files ((name, expected) ∷ rest) =
        let later = read_values files rest in
        elim (lookup name files) [
          | none ↦ none
          | some v ↦ elim later [
            | none ↦ none
            | some vs ↦ if str_eq (artifact_sha v) expected then some ((name, v) ∷ vs) else none
          ]
        ]

    unfoldable pub contains : Event → List Event → Bool
    contains e [] = false
    contains e (x ∷ events) = event_eq e x || contains e events

    -- The tests on the account event, which version 3 adds.
    unfoldable pub event_bound : Disk → Complete → Manifest → Option Artifact → Bool
    unfolding contains
    event_bound d marker m (some (account_event_of e)) =
        elim (load_account_events sha.of_event d.events) [
          | raised ↦ false
          | value events ↦
              contains e events
              && (kind_eq e.kind reconcile
                  && (opt_eq marker.commit_id marker.account_event_id
                      && (opt_eq e.event_id marker.account_event_id
                          && (opt_eq e.previous_event_id marker.previous_account_event_id
                              && opt_eq e.account_state_sha256 m.account_state_sha256))))
        ]
    event_bound d marker m _ = false

    abbrev is_version_two : Option ℕ → Bool
    is_version_two none = false
    is_version_two (some v) = v == 2

    -- The tests on the generation root, which version 4 adds.
    unfoldable pub root_bound :
        ℕ
        → String
        → Complete
        → Manifest
        → Artifacts
        → LedgerRow
        → EquityRow
        → Option String
        → Option Artifact
        → Bool
    unfolding pop
    root_bound cycle cadence marker m values ledger equity (some commit_id)
          (some (account_event_of e)) =
        opt_eq marker.cadence (some cadence)
        && (is_version_two e.schema_version
            && (opt_eq e.generation_root_sha256 m.generation_root_sha256
                && (elim (generation_root_sha256 commit_id cycle cadence
                    (pop "account_event" values) ledger equity) [
                      | raised ↦ false
                      | value expected ↦ opt_eq (some expected) m.generation_root_sha256
                    ])))
    root_bound cycle cadence marker m values ledger equity _ _ = false

    -- The tests on the account state and the provenance, which version 2 adds.
    unfoldable pub state_bound : Manifest → Option String → Option String → Bool
    state_bound m (some account) (some provenance) =
        opt_eq (some (sha.of_text account)) m.account_state_sha256
        && (o.provenance_valid provenance
            && opt_eq (some (sha.of_text provenance)) m.runtime_provenance_sha256)
    state_bound m _ _ = false

    unfoldable pub manifest_rows :
        Disk → ℕ → String → Complete → Manifest → Artifacts → LedgerRow → EquityRow → Bool
    unfolding event_bound root_bound state_bound lookup
    manifest_rows d cycle cadence marker m values ledger equity =
        let event = lookup "account_event" values in
        opt_eq (some (ledger_sha ledger)) m.ledger_sha256
        && (opt_eq (some (sha.of_equity equity)) m.equity_sha256
            && ((m.version == 1)
                || (state_bound m (text_of (lookup "account_state" values))
                      (text_of (lookup "runtime_provenance" values))
                    && ((m.version == 2)
                        || (event_bound d marker m event
                            && ((m.version == 3)
                                || root_bound cycle cadence marker m values ledger equity
                                    marker.commit_id event))))))

    unfoldable pub manifest_values :
        Disk → ℕ → String → Complete → Manifest → Option Artifacts → Bool
    unfolding manifest_rows cycle_row
    manifest_values d cycle cadence marker m none = false
    manifest_values d cycle cadence marker m (some values) =
        elim (cycle_row (λ (r : LedgerRow). r.cycle) cycle d.ledger) [
          | raised ↦ false
          | value ledger ↦ elim (cycle_row (λ (r : EquityRow). r.cycle) cycle d.equity) [
            | raised ↦ false
            | value equity ↦ manifest_rows d cycle cadence marker m values ledger equity
          ]
        ]

    abbrev no_artifacts : Manifest → Bool
    no_artifacts m = elim m.artifact_sha256 [ [] ↦ true | _ ↦ false ]

    -- `_verify_completion_manifest`
    unfoldable pub verify_completion_manifest : Disk → ℕ → Complete → String → Bool
    unfolding manifest_values read_values
    verify_completion_manifest d cycle marker cadence = elim marker.manifest [
      | none ↦ false
      | some m ↦
          leb 1 m.version
          && (leb m.version 4
              && (not (no_artifacts m)
                  && manifest_values d cycle cadence marker m
                      (read_values d.files m.artifact_sha256)))
    ]

    -- A marker of the protocol.
    unfoldable pub marker_complete : Disk → ℕ → String → Bool → Bool → Complete → Bool
    unfolding verify_completion_manifest
    marker_complete d cycle cadence require_manifest required marker =
        let has_manifest = elim marker.manifest as (λ _. Bool) [ none ↦ false | some _ ↦ true ] in
        (marker.cycle == cycle)
        && (marker.paper_only
            && (not ((require_manifest || required) && not has_manifest)
                && (not has_manifest || verify_completion_manifest d cycle marker cadence)))

    -- A directory from before the protocol has only its report.
    unfoldable pub legacy_complete : Disk → ℕ → Bool
    unfolding lookup
    legacy_complete d cycle = elim (text_of (lookup "report" d.files)) [
      | none ↦ false
      | some report ↦ elim (o.reported_cycle report) [ none ↦ false | some c ↦ c == cycle ]
    ]

    -- `cycle_is_complete`
    unfoldable pub cycle_is_complete : Disk → ℕ → String → Bool → Bool
    unfolding marker_complete legacy_complete
    cycle_is_complete d cycle cadence require_manifest = elim d.protocol [
      | none ↦ legacy_complete d cycle
      | some p ↦
          if ltb cycle p.first_cycle
          then legacy_complete d cycle
          else elim d.complete as (λ _. Bool) [
            | present marker ↦
                marker_complete d cycle cadence require_manifest p.manifest_required marker
            | _ ↦ false
          ]
    ]
