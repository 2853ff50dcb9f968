-- ===== src/Commit.antt =====
-- The durable generation of futures_fund/reconcile_commit.py: what is on disk. A JSON value is its canonical text where only its hash and its
-- equality count. A Disk holds the directory of one cycle, the one that is being committed; what the
-- other generations declare, and whether they are intact, is a constant of it.
pub mod Completion
pub mod Writes
pub mod Recovery
pub mod Stage
pub mod Completed
use Prim.Native.Nat.{Ordering}
use Prim.Native.String
use gpt_market_neutral_crypt.Prelude.{
  ℕ, ◌+◌, Bool, true, false, ◌||◌, ◌&&◌, not, Option, none, some, List, [], ◌∷◌, String, str_eq,
  opt_eq, leb, ltb, ◌==◌, if◌then◌else◌, Outcome, value, raised, ◌>>=◌, ◌>>◌, raise_if, lookup,
  assign, pop, is_text,
}
use gpt_market_neutral_crypt.Time.{Instant}
use gpt_market_neutral_crypt.Events.{Event, EventKind, reconcile, Line, load_account_events}
use gpt_market_neutral_crypt.Events.References.{Marker, Generations, event_eq, kind_eq}
use gpt_market_neutral_crypt.Ledger.{LedgerRow, EquityRow, RowLine, jsonl_rows}

-- A JSON artifact of a cycle: the account event, or another value.
pub data Artifact : Type 0 where
  json : String → Artifact
  account_event_of : Event → Artifact

abbrev pub Artifacts : Type 0
Artifacts = List (String × Artifact)

-- The object that `_reconcile_generation_root_sha256` hashes.
pub record RootBody : Type 0 where
  pub commit_id : String
  pub cycle : ℕ
  pub cadence : String
  pub artifact_sha256 : List (String × String)
  pub ledger_sha256 : String
  pub equity_sha256 : String
  pub account_state_sha256 : String
  pub runtime_provenance_sha256 : String

-- reconcile-transaction.json. `base_account_sha256` is `none` if the key is missing or is neither null nor a text;
-- `manifest_version` is `none` if `int` raises on it.
pub record Transaction : Type 0 where
  pub version : Option ℕ
  pub paper_only : Bool
  pub manifest_version : Option ℕ
  pub commit_id : String
  pub cycle : ℕ
  pub cadence : String
  pub base_account_sha256 : Option (Option String)
  pub account : String
  pub artifacts : Artifacts
  pub equity_ts : Instant
  pub equity_value : String
  pub ledger : LedgerRow
  pub generation_root_sha256 : Option String
  pub directive_expectation : Option String
  pub intent_sha256 : Option String

-- `canonical_json_sha256` of the objects of this module.
pub record Canonical : Type 0 where
  pub of_text : String → String
  pub of_event : Event → String
  pub of_equity : EquityRow → String
  pub of_root : RootBody → String
  pub of_intent : Transaction → String

-- What other modules decide: `verify_runtime_provenance`, the account that `PaperAccount.from_dict` and `to_dict` make of
-- a value, the directive binding of a transaction, the names that `save_output` accepts, and the cycle that a report names.
pub record Others : Type 0 where
  pub provenance_valid : String → Bool
  pub reread_account : String → Outcome String
  pub directive_bound : Transaction → Outcome (Unit {0})
  pub is_artifact_name : String → Bool
  pub reported_cycle : String → Option ℕ

pub record Manifest : Type 0 where
  pub version : ℕ
  pub artifact_sha256 : List (String × String)
  pub ledger_sha256 : Option String
  pub equity_sha256 : Option String
  pub account_state_sha256 : Option String
  pub runtime_provenance_sha256 : Option String
  pub generation_root_sha256 : Option String

-- complete.json
pub record Complete : Type 0 where
  pub paper_only : Bool
  pub cycle : ℕ
  pub cadence : Option String
  pub commit_id : Option String
  pub account_event_id : Option String
  pub previous_account_event_id : Option String
  pub manifest : Option Manifest

pub data CompleteFile : Type 0 where
  absent unreadable : CompleteFile
  present : Complete → CompleteFile

pub data TransactionFile : Type 0 where
  none_staged malformed : TransactionFile
  staged : Transaction → TransactionFile

-- reconcile-protocol.json, where it is there and `_protocol` accepts it; with one that it refuses (of another version, or
-- without a first cycle) every operation raises, which is not modelled.
pub record Protocol : Type 0 where
  pub first_cycle : ℕ
  pub manifest_required : Bool

pub record Disk : Type 0 where
  pub account : Option String
  pub files : Artifacts
  pub complete : CompleteFile
  pub ledger : List (RowLine LedgerRow)
  pub equity : List (RowLine EquityRow)
  pub events : List Line
  pub others : Generations
  pub transaction : TransactionFile
  pub heartbeat_pending : Bool
  pub protocol : Option Protocol

module _ (sha : Canonical) where
  -- `current_account_sha256` of futures_fund/state_transaction.py
  abbrev pub current_account_sha256 : Disk → Option String
  current_account_sha256 d = elim d.account as (λ _. Option String) [
    | none ↦ none
    | some a ↦ some (sha.of_text a)
  ]
