-- ===== src/Commit/Recovery.antt =====
-- `recover_reconcile_transaction` of futures_fund/reconcile_commit.py. A durable write is one atomic
-- step, and a crash falls between two steps. The exclusive lock keeps other writers away.
pub mod Steps
pub mod Resume
pub mod Underway
pub mod Crash
pub mod Schedules
pub mod Outcomes
pub mod Raises
pub mod Published
pub mod Committed
pub mod Samples
pub mod Tests
use gpt_market_neutral_crypt.Prelude.{
  ℕ, zero, suc, ◌+◌, Bool, true, false, ◌||◌, ◌&&◌, not, Option, none, some, List, [], ◌∷◌, ◌++◌,
  String, str_eq, opt_eq, leb, ltb, ◌==◌, if◌then◌else◌, Outcome, value, raised, ◌>>=◌, ◌>>◌,
  raise_if, lookup, assign, pop, is_text,
}
use gpt_market_neutral_crypt.Time.{Instant}
use gpt_market_neutral_crypt.Events.{Event, Line}
use gpt_market_neutral_crypt.Events.References.{
  Marker, Generations, verify_account_event_references,
}
use gpt_market_neutral_crypt.Events.Append.{append_account_event}
use gpt_market_neutral_crypt.Ledger.{
  LedgerRow, EquityRow, RowLine, row, append_ledger, record_equity,
}
use gpt_market_neutral_crypt.Ledger.Rows.{file_of}
use gpt_market_neutral_crypt.Commit.Writes.{Write, write_all, equity_row, generations, publication}
use gpt_market_neutral_crypt.Commit.{
  Artifact, json, account_event_of, Artifacts, Transaction, Canonical, Others, Manifest, Complete,
  CompleteFile, absent, unreadable, present, TransactionFile, none_staged, malformed, staged, Disk,
}
use gpt_market_neutral_crypt.Commit.Completion.{
  artifact_sha, ledger_sha, names_sha, sort_names, generation_root_sha256,
  verify_completion_manifest, cycle_is_complete,
}

-- How a recovery ends.
pub data Result : Type 0 where
  not_recovered : Result
  recovered : ℕ → Bool → Result

abbrev pub is_supported : Option ℕ → Bool
is_supported none = false
is_supported (some v) = (v == 1) || (v == 2)

abbrev pub is_current : Option ℕ → Bool
is_current none = false
is_current (some v) = leb 2 v

abbrev pub is_manifest_version : Option ℕ → Bool
is_manifest_version none = false
is_manifest_version (some v) = (v == 3) || (v == 4)

module _ (sha : Canonical) (o : Others) where
  -- The account event of a transaction, where it is an object.
  unfoldable pub event_of : Option Artifact → Outcome Event
  event_of (some (account_event_of e)) = value e
  event_of _ = raised

  -- The tests on the transaction alone.
  unfoldable pub sound : Transaction → Outcome ℕ
  sound t = do
    raise_if (not (is_supported t.version) || not t.paper_only)
    raise_if (not (is_text t.intent_sha256))
    raise_if
        (not (opt_eq t.intent_sha256 (some (sha.of_intent (record t { intent_sha256 = none })))))
    raise_if (elim t.base_account_sha256 as (λ _. Bool) [ none ↦ true | some _ ↦ false ])
    raise_if (not (is_manifest_version t.manifest_version))
    raise_if (is_current t.version && (t.cycle == 0))
    raise_if (is_current t.version && not (is_text t.directive_expectation))
    elim t.manifest_version as (λ _. Outcome ℕ) [ none ↦ raised | some v ↦ value v ]

  -- `verify_account_lineage` of futures_fund/state_transaction.py: the account is the transaction's base or its target.
  unfoldable pub lineage : Option String → Option (Option String) → String → Outcome (Unit {0})
  lineage account none target = raised
  lineage account (some base) target =
      let current = elim account as (λ _. Option String) [
        | none ↦ none
        | some a ↦ some (sha.of_text a)
      ] in
      raise_if (not (opt_eq current base || opt_eq current (some target)))

  -- The account must read back with its hash; it is the one that is then written, as the same canonical text.
  unfoldable pub rereads : Transaction → Outcome (Unit {0})
  rereads t = do
    a ← o.reread_account t.account
    raise_if (not (str_eq (sha.of_text a) (sha.of_text t.account)))

  -- The test of the generation root, in manifests of version 4.
  unfoldable pub root_matches : Transaction → Event → ℕ → Outcome (Unit {0})
  unfolding pop
  root_matches t e manifest_version =
      if manifest_version == 4
      then (do
        expected ←
            generation_root_sha256 sha o t.commit_id t.cycle t.cadence
              (pop "account_event" t.artifacts) t.ledger (equity_row sha o t)
        raise_if (
            not (opt_eq t.generation_root_sha256 (some expected))
            || not (opt_eq e.generation_root_sha256 (some expected))))
      else value tt

  unfoldable pub report_of : Option Artifact → Outcome Artifact
  report_of none = raised
  report_of (some v) = value v

  -- The tests between the completion marker and the first write: the writes to do.
  unfoldable pub plan : Disk → Transaction → Event → ℕ → Outcome (List Write)
  unfolding lineage rereads root_matches report_of publication lookup
  plan d t e manifest_version = do
    rereads t
    lineage d.account t.base_account_sha256 (sha.of_text t.account)
    report ← report_of (lookup "report" t.artifacts)
    raise_if (not (t.ledger.cycle == t.cycle))
    root_matches t e manifest_version
    value (publication sha o t e manifest_version report)

  abbrev unstage : Disk → Disk
  unstage d = record d { transaction = none_staged }

  abbrev account_is : Disk → Transaction → Bool
  account_is d t = elim d.account as (λ _. Bool) [
    | none ↦ false
    | some a ↦ str_eq (sha.of_text a) (sha.of_text t.account)
  ]

  -- The tests after the last write, and the end of the transaction.
  pub finish : Transaction → Outcome (Unit {0}) × Disk → Outcome Result × Disk
  finish t (raised, d) = (raised, d)
  finish t (value _, d) =
      if cycle_is_complete sha o d t.cycle t.cadence true && account_is d t
      then (value (recovered t.cycle false), unstage d)
      else (raised, d)

  publish : Disk → Transaction → Outcome (List Write) → Outcome Result × Disk
  unfolding finish write_all
  publish d t raised = (raised, d)
  publish d t (value ws) = finish t (write_all sha o t.cadence t.cycle ws d)

  -- A marker that is there: another generation's, an intact one, or a damaged one that is written again.
  marked : Disk → Transaction → Event → ℕ → Complete → Outcome Result × Disk
  unfolding plan publish
  marked d t e manifest_version c =
      let again = publish d t (plan d t e manifest_version) in
      let intact = c.paper_only && verify_completion_manifest sha o d t.cycle c t.cadence in
      if not (opt_eq c.commit_id (some t.commit_id)) || not (c.cycle == t.cycle)
      then (raised, d)
      else if not intact
      then again
      else if account_is d t
      then (value (recovered t.cycle true), unstage d)
      else (raised, d)

  pub resume : Disk → Transaction → Event → ℕ → Outcome Result × Disk
  unfolding marked
  resume d t e manifest_version = elim d.complete as (λ _. Outcome Result × Disk) [
    | absent ↦ publish d t (plan d t e manifest_version)
    | unreadable ↦ (raised, d)
    | present c ↦ marked d t e manifest_version c
  ]

  -- The tests before the completion marker: the account event and the manifest's version.
  unfoldable pub admitted : Disk → Transaction → Outcome (Event × ℕ)
  unfolding sound event_of generations lookup
  admitted d t = do
    manifest_version ← sound t
    o.directive_bound t
    e ← event_of (lookup "account_event" t.artifacts)
    verify_account_event_references sha.of_event (generations sha o t.cadence t.cycle d) d.events
        (some e)
    value (e, manifest_version)

  pub continue : Disk → Transaction → Outcome (Event × ℕ) → Outcome Result × Disk
  unfolding resume
  continue d t raised = (raised, d)
  continue d t (value (e, manifest_version)) = resume d t e manifest_version

  -- `_recover_reconcile_transaction_unlocked`
  unfoldable pub recover_reconcile_transaction : Disk → Outcome Result × Disk
  unfolding continue admitted
  recover_reconcile_transaction d = elim d.transaction as (λ _. Outcome Result × Disk) [
    | none_staged ↦ (value not_recovered, d)
    | malformed ↦ (raised, d)
    | staged t ↦ if d.heartbeat_pending then (raised, d) else continue d t (admitted d t)
  ]
