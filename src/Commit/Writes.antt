-- ===== src/Commit/Writes.antt =====
-- The durable writes of a recovery in futures_fund/reconcile_commit.py, one by one. A write is one
-- atomic step.
use gpt_market_neutral_crypt.Prelude.{
  ℕ, true, Option, none, some, List, [], ◌∷◌, ◌++◌, String, str_eq, ◌==◌, if◌then◌else◌, Outcome,
  value, raised, lookup, assign, pop,
}
use gpt_market_neutral_crypt.Events.{Event, Line}
use gpt_market_neutral_crypt.Events.References.{Marker, Generations}
use gpt_market_neutral_crypt.Events.Append.{append_account_event}
use gpt_market_neutral_crypt.Ledger.{LedgerRow, EquityRow, RowLine, append_ledger, record_equity}
use gpt_market_neutral_crypt.Ledger.Rows.{file_of}
use gpt_market_neutral_crypt.Commit.{
  Artifact, Artifacts, Transaction, Canonical, Others, Manifest, Complete, present, Disk,
}
use gpt_market_neutral_crypt.Commit.Completion.{
  artifact_sha, ledger_sha, names_sha, sort_names, cycle_is_complete,
}

-- The durable writes of a recovery, and the raise in their midst of a key that is missing.
pub data Write : Type 0 where
  save_account : String → Write
  save_output : String → Artifact → Write
  save_equity : EquityRow → Write
  save_ledger : LedgerRow → Write
  save_event : Event → Write
  save_complete : Complete → Write
  stop : Write

-- The version of a marker's manifest.
abbrev pub marker_version : Option Manifest → ℕ
marker_version none = 0
marker_version (some m) = m.version

abbrev pub marker_state : Option Manifest → Option String
marker_state none = none
marker_state (some m) = m.account_state_sha256

-- The lines of a file that a function of the rows has rewritten.
unfoldable pub rewrite {ℓ} : {A : Type ℓ} → Outcome (List A) → Outcome (List (RowLine A))
rewrite raised = raised
rewrite (value rows) = value (file_of rows)

module _ (sha : Canonical) (o : Others) where
  -- The generations that the reference check finds: the one of this directory and the others. `cadence` and `cycle` name
  -- the directory, whose marker counts only below rebal/cycle.
  unfoldable pub generations : String → ℕ → Disk → Generations
  generations cadence cycle d = elim d.complete as (λ _. Generations) [
    | present c ↦
        let own : Marker = record {
          version = marker_version c.manifest;
          account_event_id = c.account_event_id;
          commit_id = c.commit_id;
          account_state_sha256 = marker_state c.manifest;
          intact = cycle_is_complete sha o d cycle "rebal" true;
        } in
        if str_eq cadence "rebal"
        then record d.others { markers = own ∷ d.others.markers }
        else d.others
    | _ ↦ d.others
  ]

  -- `append_account_event` on a disk.
  abbrev event_lines : Disk → Outcome (Unit {0}) × List Line → Outcome (Unit {0}) × Disk
  event_lines d (r, lines) = (r, record d { events = lines })

  -- One write: how it ends, and the disk after it. An artifact named `complete`, which staging refuses, is kept apart from
  -- the marker here.
  unfoldable pub write : String → ℕ → Write → Disk → Outcome (Unit {0}) × Disk
  unfolding generations rewrite assign
  write cadence cycle (save_account a) d = (value tt, record d { account = some a })
  write cadence cycle (save_output name v) d =
      if o.is_artifact_name name
      then (value tt, record d { files = assign name v d.files })
      else (raised, d)
  write cadence cycle (save_equity r) d = elim (rewrite (record_equity r d.equity)) [
    | raised ↦ (raised, d)
    | value lines ↦ (value tt, record d { equity = lines })
  ]
  write cadence cycle (save_ledger r) d = elim (rewrite (append_ledger r d.ledger)) [
    | raised ↦ (raised, d)
    | value lines ↦ (value tt, record d { ledger = lines })
  ]
  write cadence cycle (save_event e) d =
      event_lines d (append_account_event sha.of_event (generations cadence cycle d) d.events e)
  write cadence cycle (save_complete c) d = (value tt, record d { complete = present c })
  write cadence cycle stop d = (raised, d)

  -- The writes in their order, up to the first that raises.
  unfoldable pub write_all : String → ℕ → List Write → Disk → Outcome (Unit {0}) × Disk
  unfolding write
  write_all cadence cycle [] d = (value tt, d)
  write_all cadence cycle (w ∷ ws) d =
      let (r, d') = write cadence cycle w d in
      elim r [ raised ↦ (raised, d') | value _ ↦ write_all cadence cycle ws d' ]

  abbrev pub equity_row : Transaction → EquityRow
  equity_row t = record { cycle = t.cycle; ts = t.equity_ts; equity = t.equity_value }

  unfoldable pub outputs : Artifacts → List Write
  outputs [] = []
  outputs ((name, v) ∷ rest) = save_output name v ∷ outputs rest

  -- The artifacts but the report, in the order of the dictionary.
  abbrev pub unreported : Transaction → Artifacts
  unreported t = pop "report" t.artifacts

  -- complete.json of a transaction.
  unfoldable pub completion : Transaction → Event → ℕ → Artifact → Artifact → Complete
  completion t e manifest_version report provenance = record {
    paper_only = true;
    cycle = t.cycle;
    cadence = some t.cadence;
    commit_id = some t.commit_id;
    account_event_id = e.event_id;
    previous_account_event_id = e.previous_event_id;
    manifest = some (record {
      version = manifest_version;
      artifact_sha256 = sort_names (names_sha sha (unreported t ++ ("report", report) ∷ []));
      ledger_sha256 = some (ledger_sha sha t.ledger);
      equity_sha256 = some (sha.of_equity (equity_row t));
      account_state_sha256 = some (sha.of_text t.account);
      runtime_provenance_sha256 = some (artifact_sha sha provenance);
      generation_root_sha256 = if manifest_version == 4 then t.generation_root_sha256 else none;
    });
  }

  unfoldable pub last_write : Transaction → Event → ℕ → Artifact → Option Artifact → Write
  unfolding completion
  last_write t e manifest_version report none = stop
  last_write t e manifest_version report (some provenance) =
      save_complete (completion t e manifest_version report provenance)

  -- The writes before the completion marker.
  unfoldable pub body_writes : Transaction → Event → Artifact → List Write
  unfolding outputs pop
  body_writes t e report =
      save_account t.account
      ∷ (outputs (unreported t)
          ++ save_equity (equity_row t)
            ∷ save_ledger t.ledger
            ∷ save_event e
            ∷ save_output "report" report
            ∷ [])

  -- All writes of a recovery; the completion marker is the last.
  unfoldable pub publication : Transaction → Event → ℕ → Artifact → List Write
  unfolding body_writes last_write lookup
  publication t e manifest_version report =
      body_writes t e report
      ++ last_write t e manifest_version report (lookup "runtime_provenance" t.artifacts) ∷ []
