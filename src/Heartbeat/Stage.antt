-- ===== src/Heartbeat/Stage.antt =====
-- `stage_heartbeat_transaction` of futures_fund/heartbeat.py: the durable intent of one heartbeat.
pub mod Intended
pub mod Replayable
pub mod Refusal
use gpt_market_neutral_crypt.Prelude.{
  ℕ, Bool, true, false, ◌||◌, not, Option, none, some, String, opt_eq, if◌then◌else◌, Outcome,
  value, raised, ◌>>=◌, ◌>>◌, raise_if, is_text,
}
use gpt_market_neutral_crypt.Events.{Event, heartbeat, Stamp}
use gpt_market_neutral_crypt.Events.Append.{Intent, prepare_account_event}
use gpt_market_neutral_crypt.Ledger.{jsonl_rows}
use gpt_market_neutral_crypt.Heartbeat.{
  Payload, HeartbeatRecord, HeartbeatTransaction, HeartbeatTransactionFile, no_transaction,
  transaction_of, HeartbeatDisk, HeartbeatCanonical, HeartbeatOthers,
}
use gpt_market_neutral_crypt.Heartbeat.Completion.{record_sha, heartbeat_root}
use gpt_market_neutral_crypt.Heartbeat.History.{
  sorted_official, head_sha, latest, verify_heartbeat_history,
}
use gpt_market_neutral_crypt.Heartbeat.Writes.{heartbeat_generations}

-- What the caller gives.
pub record HeartbeatProposal : Type 0 where
  pub expected_base_account_sha256 : Option String
  pub account : String
  pub heartbeat : HeartbeatRecord
  pub runtime_provenance : Option String

-- `default_runtime_provenance` at a row's time, and `datetime.fromisoformat`.
pub record HeartbeatSources : Type 0 where
  pub default_provenance : String → Outcome String
  pub stamp : String → Stamp

abbrev is_present : Option ℕ → Bool
is_present none = false
is_present (some v) = true

-- The caller has set a field of the protocol.
unfoldable pub reserved_fields : HeartbeatRecord → Bool
reserved_fields r =
    is_present r.heartbeat_schema_version
    || (is_text r.commit_id
        || (is_text r.previous_heartbeat_sha256
            || (is_text r.account_state_sha256
                || (is_text r.runtime_provenance_sha256
                    || (is_text r.account_event_sha256
                        || (is_text r.base_account_sha256
                            || (is_text r.previous_account_event_id
                                || (is_text r.previous_account_event_sha256
                                    || (is_text r.generation_root_sha256
                                        || is_text r.record_sha256)))))))))

-- `record["ts"]`
unfoldable pub time_in : Option String → Outcome String
time_in none = raised
time_in (some ts) = value ts

module _ (sha : HeartbeatCanonical) (o : HeartbeatOthers) (s : HeartbeatSources) where
  unfoldable pub provenance_in : Option String → String → Outcome String
  provenance_in none ts = s.default_provenance ts
  provenance_in (some p) ts = value p

  abbrev pub heartbeat_intent : String → HeartbeatProposal → String → String → Intent
  heartbeat_intent commit_id p ts root = record {
    event_id = some commit_id;
    kind = heartbeat;
    event_ts = s.stamp ts;
    base_account_sha256 = p.expected_base_account_sha256;
    account_state_sha256 = some (sha.of_text p.account);
    generation_root_sha256 = some root;
  }

  -- The row without its own hash.
  unfoldable pub prepared :
      String → HeartbeatProposal → String → Option String → String → Event → HeartbeatRecord
  prepared commit_id p provenance previous root e = record {
    payload = p.heartbeat.payload;
    heartbeat_schema_version = some 4;
    commit_id = some commit_id;
    previous_heartbeat_sha256 = previous;
    account_state_sha256 = some (sha.of_text p.account);
    runtime_provenance_sha256 = some (sha.of_text provenance);
    account_event_sha256 = e.event_sha256;
    base_account_sha256 = p.expected_base_account_sha256;
    previous_account_event_id = e.previous_event_id;
    previous_account_event_sha256 = e.previous_event_sha256;
    generation_root_sha256 = some root;
    record_sha256 = none;
  }

  unfoldable pub with_hash : HeartbeatRecord → HeartbeatRecord
  with_hash r = record r { record_sha256 = some (record_sha sha o r) }

  -- The transaction without its own hash.
  unfoldable pub heartbeat_body :
      String → HeartbeatProposal → String → String → Event → HeartbeatRecord → HeartbeatTransaction
  heartbeat_body commit_id p provenance root e r = record {
    version = some 4;
    paper_only = true;
    commit_id = commit_id;
    base_account_sha256 = some p.expected_base_account_sha256;
    account = p.account;
    heartbeat = some r;
    heartbeat_payload = some p.heartbeat.payload;
    runtime_provenance = provenance;
    account_event = some e;
    generation_root_sha256 = some root;
    intent_sha256 = none;
  }

  unfoldable pub with_intent : HeartbeatTransaction → HeartbeatTransaction
  with_intent t = record t { intent_sha256 = some (sha.of_intent t) }

  -- The transaction for a fresh commit id.
  unfoldable pub intend_heartbeat :
      String → HeartbeatProposal → HeartbeatDisk → Outcome HeartbeatTransaction
  unfolding prepared with_hash heartbeat_body with_intent provenance_in time_in reserved_fields
  intend_heartbeat commit_id p d = do
    verify_heartbeat_history sha o d none
    rows ← jsonl_rows d.rows
    prior ← sorted_official rows
    ts ← time_in p.heartbeat.payload.ts
    provenance ← provenance_in p.runtime_provenance ts
    raise_if (not (o.provenance_valid provenance))
    raise_if (reserved_fields p.heartbeat)
    let previous = head_sha sha o (latest sha o prior)
    root ← heartbeat_root sha o commit_id p.heartbeat.payload p.account provenance previous
    e ←
        prepare_account_event sha.of_event (heartbeat_generations sha o d) d.events
          (heartbeat_intent commit_id p ts root)
    let r = with_hash (prepared commit_id p provenance previous root e)
    value (with_intent (heartbeat_body commit_id p provenance root e r))

  abbrev pub account_sha : HeartbeatDisk → Option String
  account_sha d = elim d.account as (λ _. Option String) [
    | none ↦ none
    | some a ↦ some (sha.of_text a)
  ]

  abbrev pub staged_heartbeat :
      HeartbeatDisk → Outcome HeartbeatTransaction → Outcome HeartbeatTransaction × HeartbeatDisk
  staged_heartbeat d raised = (raised, d)
  staged_heartbeat d (value t) = (value t, record d { transaction = transaction_of t })

  -- `stage_heartbeat_transaction`; `commit_id` is the fresh `uuid4().hex`.
  unfoldable pub stage_heartbeat_transaction :
      String → HeartbeatProposal → HeartbeatDisk → Outcome HeartbeatTransaction × HeartbeatDisk
  unfolding intend_heartbeat
  stage_heartbeat_transaction commit_id p d =
      elim d.transaction as (λ _. Outcome HeartbeatTransaction × HeartbeatDisk) [
        | no_transaction ↦
            if not (opt_eq (account_sha d) p.expected_base_account_sha256) || d.reconcile_pending
            then (raised, d)
            else staged_heartbeat d (intend_heartbeat commit_id p d)
        | _ ↦ (raised, d)
      ]
