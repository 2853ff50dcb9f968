-- ===== src/Heartbeat/Samples.antt =====
-- A heartbeat for the tests of futures_fund/heartbeat.py, on a directory whose chain has one reconcile. A text is its own
-- hash, and a row's hash is its commit id.
use gpt_market_neutral_crypt.Prelude.{true, false, none, some, [], ◌∷◌, String, value, suc}
use gpt_market_neutral_crypt.Time.{epoch}
use gpt_market_neutral_crypt.Events.{aware}
use gpt_market_neutral_crypt.Events.Samples.{
  digest, digest_of, marker, first_file, pulse, pulse_file, root,
}
use gpt_market_neutral_crypt.Ledger.{row}
use gpt_market_neutral_crypt.Heartbeat.{
  Payload, HeartbeatRecord, HeartbeatComplete, Directory, complete_of, HeartbeatTransaction,
  no_transaction, transaction_of, HeartbeatDisk, HeartbeatCanonical, HeartbeatOthers,
}
use gpt_market_neutral_crypt.Heartbeat.Stage.{HeartbeatProposal, HeartbeatSources}

abbrev pub row_hashes : HeartbeatCanonical
row_hashes = record {
  of_text = λ (s : String). s;
  of_event = digest;
  of_payload = λ (p : Payload). p.measures;
  of_record = λ (r : HeartbeatRecord). digest_of r.commit_id;
  of_root = λ b. root;
  of_intent = λ (t : HeartbeatTransaction). t.commit_id;
  directory_name = λ (slot : String) (kind : String). slot;
}

abbrev pub row_others : HeartbeatOthers
row_others = record {
  provenance_valid = λ (s : String). true;
  reread_account = λ (s : String). value s;
}

abbrev pub row_sources : HeartbeatSources
row_sources = record {
  default_provenance = λ (ts : String). value "p";
  stamp = λ (ts : String). aware (suc epoch);
}

abbrev pub measured : Payload
measured = record {
  ts = some "t2";
  schedule_slot = some "slot2";
  kind = some "token_free_funding_heartbeat";
  paper_only = true;
  measures = "m2";
}

-- A row before the protocol, and one of the caller.
abbrev pub legacy : HeartbeatRecord
legacy = record {
  payload = record measured { ts = some "t1"; schedule_slot = some "slot1"; measures = "m1" };
  heartbeat_schema_version = none;
  commit_id = none;
  previous_heartbeat_sha256 = none;
  account_state_sha256 = none;
  runtime_provenance_sha256 = none;
  account_event_sha256 = none;
  base_account_sha256 = none;
  previous_account_event_id = none;
  previous_account_event_sha256 = none;
  generation_root_sha256 = none;
  record_sha256 = none;
}

abbrev pub proposed_row : HeartbeatProposal
proposed_row = record {
  expected_base_account_sha256 = some "s1";
  account = "s2";
  heartbeat = record legacy { payload = measured };
  runtime_provenance = none;
}

-- The row that staging makes of it on an empty ledger.
abbrev pub pulse_row : HeartbeatRecord
pulse_row = record {
  payload = measured;
  heartbeat_schema_version = some 4;
  commit_id = some "h2";
  previous_heartbeat_sha256 = none;
  account_state_sha256 = some "s2";
  runtime_provenance_sha256 = some "p";
  account_event_sha256 = some "h2";
  base_account_sha256 = some "s1";
  previous_account_event_id = some "r1";
  previous_account_event_sha256 = some "r1";
  generation_root_sha256 = some root;
  record_sha256 = some "h2";
}

abbrev pub pulse_transaction : HeartbeatTransaction
pulse_transaction = record {
  version = some 4;
  paper_only = true;
  commit_id = "h2";
  base_account_sha256 = some (some "s1");
  account = "s2";
  heartbeat = some pulse_row;
  heartbeat_payload = some measured;
  runtime_provenance = "p";
  account_event = some pulse;
  generation_root_sha256 = some root;
  intent_sha256 = some "h2";
}

abbrev pub empty_ledger : HeartbeatDisk
empty_ledger = record {
  account = some "s1";
  rows = [];
  directories = [];
  events = first_file;
  markers = marker ∷ [];
  reconcile_pending = false;
  transaction = no_transaction;
}

abbrev pub staged_ledger : HeartbeatDisk
staged_ledger = record empty_ledger { transaction = transaction_of pulse_transaction }

abbrev pulse_complete : HeartbeatComplete
pulse_complete = record {
  version = 4;
  paper_only = true;
  commit_id = some "h2";
  manifest = some (record {
    heartbeat_sha256 = some "h2";
    account_state_sha256 = some "s2";
    runtime_provenance_sha256 = some "p";
    previous_heartbeat_sha256 = none;
    account_event_sha256 = some "h2";
    generation_root_sha256 = some root;
    artifact_sha256 = some (record {
      account_event = "h2";
      account_state = "s2";
      heartbeat = "h2";
      heartbeat_payload = "m2";
      runtime_provenance = "p";
    });
  });
}

abbrev pulse_directory : Directory
pulse_directory = record {
  heartbeat = some pulse_row;
  account_state = some "s2";
  runtime_provenance = some "p";
  account_event = some pulse;
  heartbeat_payload = some measured;
  complete = complete_of pulse_complete;
}

-- The directory behind the recovery.
abbrev pub pulse_ledger : HeartbeatDisk
pulse_ledger = record {
  account = some "s2";
  rows = row pulse_row ∷ [];
  directories = ("slot2", pulse_directory) ∷ [];
  events = pulse_file;
  markers = marker ∷ [];
  reconcile_pending = false;
  transaction = no_transaction;
}

-- A legacy row and a hashed row behind it, whose generation may be incomplete.
abbrev pub linked_row : HeartbeatRecord
linked_row = record pulse_row { previous_heartbeat_sha256 = some "" }

abbrev pub linked_ledger : HeartbeatDisk
linked_ledger = record empty_ledger { rows = row legacy ∷ row linked_row ∷ [] }
