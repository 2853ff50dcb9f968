-- ===== src/Commit/Stage.antt =====
-- `stage_reconcile_transaction` of futures_fund/reconcile_commit.py: the durable intent that a recovery carries out.
pub mod Admission
pub mod Recoverable
pub mod Refusal
pub mod Tests
use gpt_market_neutral_crypt.Prelude.{
  ℕ, Bool, true, false, ◌||◌, not, Option, none, some, List, [], ◌∷◌, String, opt_eq, ◌==◌,
  if◌then◌else◌, Outcome, value, raised, ◌>>=◌, ◌>>◌, raise_if, lookup, assign,
}
use gpt_market_neutral_crypt.Time.{Instant}
use gpt_market_neutral_crypt.Events.{Event, reconcile, aware}
use gpt_market_neutral_crypt.Events.Append.{Intent, prepare_account_event}
use gpt_market_neutral_crypt.Ledger.{LedgerRow, EquityRow}
use gpt_market_neutral_crypt.Commit.{
  Artifact, json, account_event_of, Artifacts, Transaction, Canonical, Others, TransactionFile,
  none_staged, staged, Protocol, Disk, current_account_sha256,
}
use gpt_market_neutral_crypt.Commit.Completion.{generation_root_sha256}
use gpt_market_neutral_crypt.Commit.Writes.{generations}

-- What the caller gives.
pub record Proposal : Type 0 where
  pub expected_base_account_sha256 : Option String
  pub cycle : ℕ
  pub cadence : String
  pub account : String
  pub artifacts : Artifacts
  pub equity_ts : Instant
  pub equity_value : String
  pub ledger : LedgerRow
  pub runtime_provenance : Option String
  pub directive_expectation : Option String

-- What other modules decide here: `default_runtime_provenance`, and the directive expectation of a new commit, by
-- `build_directive_commit_expectation` where none is given, and `_validate_reconcile_directive_binding`.
pub record Sources : Type 0 where
  pub default_provenance : Instant → String
  pub directives : Artifacts → ℕ → Option String → Outcome String

-- `_ensure_protocol`
pub ensure_protocol : ℕ → Disk → Disk
ensure_protocol cycle d = elim d.protocol as (λ _. Disk) [
  | none ↦ record d { protocol = some (record { first_cycle = cycle; manifest_required = true }) }
  | some _ ↦ d
]

abbrev has : String → Artifacts → Bool
has name d = elim (lookup name d) as (λ _. Bool) [ none ↦ false | some _ ↦ true ]

-- The names that the caller may not use.
pub reserved : Artifacts → Bool
unfolding lookup
reserved d =
    has "account_event" d
    || (has "account_state" d || (has "runtime_provenance" d || has "complete" d))

abbrev provenance_of : Sources → Proposal → String
provenance_of s p = elim p.runtime_provenance as (λ _. String) [
  | none ↦ s.default_provenance p.equity_ts
  | some r ↦ r
]

-- The artifacts with the account and the provenance.
pub durable : Proposal → String → Artifacts
unfolding assign
durable p provenance =
    assign "runtime_provenance" (json provenance)
      (assign "account_state" (json p.account) p.artifacts)

module _ (sha : Canonical) (o : Others) (s : Sources) where
  abbrev equity_row : Proposal → EquityRow
  equity_row p = record { cycle = p.cycle; ts = p.equity_ts; equity = p.equity_value }

  -- The transaction without its own hash.
  body : String → Proposal → String → Artifacts → String → Event → Transaction
  unfolding assign
  body commit_id p directive artifacts root e = record {
    version = some 2;
    paper_only = true;
    manifest_version = some 4;
    commit_id = commit_id;
    cycle = p.cycle;
    cadence = p.cadence;
    base_account_sha256 = some p.expected_base_account_sha256;
    account = p.account;
    artifacts = assign "account_event" (account_event_of e) artifacts;
    equity_ts = p.equity_ts;
    equity_value = p.equity_value;
    ledger = p.ledger;
    generation_root_sha256 = some root;
    directive_expectation = some directive;
    intent_sha256 = none;
  }

  pub sealed : Transaction → Transaction
  sealed t = record t { intent_sha256 = some (sha.of_intent t) }

  abbrev event_intent : String → Proposal → String → Intent
  event_intent commit_id p root = record {
    event_id = some commit_id;
    kind = reconcile;
    event_ts = aware p.equity_ts;
    base_account_sha256 = p.expected_base_account_sha256;
    account_state_sha256 = some (sha.of_text p.account);
    generation_root_sha256 = some root;
  }

  -- The transaction for a fresh commit id.
  pub intend : String → Proposal → String → Disk → Outcome Transaction
  unfolding durable body sealed reserved
  intend commit_id p directive d = do
    raise_if (not (o.provenance_valid (provenance_of s p)))
    raise_if (reserved p.artifacts)
    let artifacts = durable p (provenance_of s p)
    root ←
        generation_root_sha256 sha o commit_id p.cycle p.cadence artifacts p.ledger (equity_row p)
    e ←
        prepare_account_event sha.of_event (generations sha o p.cadence p.cycle d) d.events
          (event_intent commit_id p root)
    value (sealed (body commit_id p directive artifacts root e))

  abbrev staged_on : Disk → Outcome Transaction → Outcome Transaction × Disk
  staged_on d raised = (raised, d)
  staged_on d (value t) = (value t, record d { transaction = staged t })

  -- `_stage_reconcile_transaction_unlocked`
  stage_unlocked : String → Proposal → String → Disk → Outcome Transaction × Disk
  unfolding ensure_protocol intend
  stage_unlocked commit_id p directive d = elim d.transaction as (λ _. Outcome Transaction × Disk) [
    | none_staged ↦
        let d' = ensure_protocol p.cycle d in
        if d.heartbeat_pending then (raised, d) else staged_on d' (intend commit_id p directive d')
    | _ ↦ (raised, d)
  ]

  -- The tests under the lock: the directive expectation, and the account that the caller has worked from.
  pub expectation : Proposal → Disk → Outcome String
  expectation p d = do
    raise_if (p.cycle == 0)
    directive ← s.directives p.artifacts p.cycle p.directive_expectation
    raise_if (not (opt_eq (current_account_sha256 sha d) p.expected_base_account_sha256))
    value directive

  staged_under : String → Proposal → Disk → Outcome String → Outcome Transaction × Disk
  unfolding stage_unlocked
  staged_under commit_id p d raised = (raised, d)
  staged_under commit_id p d (value directive) = stage_unlocked commit_id p directive d

  -- `stage_reconcile_transaction`; `commit_id` is the fresh `uuid4().hex`.
  pub stage_reconcile_transaction : String → Proposal → Disk → Outcome Transaction × Disk
  unfolding staged_under expectation
  stage_reconcile_transaction commit_id p d = staged_under commit_id p d (expectation p d)
