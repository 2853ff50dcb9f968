-- ===== src/Heartbeat.antt =====
-- futures_fund/heartbeat.py: the token-free heartbeat, its ledger portfolio-heartbeats.jsonl and its transaction. A row
-- is the payload that the caller measures and the provenance fields that the protocol adds. A text is `none` where its key
-- is absent or null; the other keys of a payload are one canonical text.
pub mod Records
pub mod Completion
pub mod History
pub mod Writes
pub mod Recovery
pub mod Stage
pub mod Samples
mod Tests
use gpt_market_neutral_crypt.Prelude.{ℕ, Bool, Option, List, String, Outcome}
use gpt_market_neutral_crypt.Events.{Event, Line}
use gpt_market_neutral_crypt.Events.References.{Marker}
use gpt_market_neutral_crypt.Ledger.{RowLine}

-- What `_heartbeat_payload` keeps of a row.
pub record Payload : Type 0 where
  pub ts : Option String
  pub schedule_slot : Option String
  pub kind : Option String
  pub paper_only : Bool
  pub measures : String

-- A row: the payload, and `_HEARTBEAT_PROVENANCE_FIELDS`.
pub record HeartbeatRecord : Type 0 where
  pub payload : Payload
  pub heartbeat_schema_version : Option ℕ
  pub commit_id : Option String
  pub previous_heartbeat_sha256 : Option String
  pub account_state_sha256 : Option String
  pub runtime_provenance_sha256 : Option String
  pub account_event_sha256 : Option String
  pub base_account_sha256 : Option String
  pub previous_account_event_id : Option String
  pub previous_account_event_sha256 : Option String
  pub generation_root_sha256 : Option String
  pub record_sha256 : Option String

-- The object that `_heartbeat_generation_root_sha256` hashes.
pub record HeartbeatRoot : Type 0 where
  pub commit_id : String
  pub schedule_slot : Option String
  pub ts : Option String
  pub kind : Option String
  pub heartbeat_payload_sha256 : String
  pub account_state_sha256 : String
  pub runtime_provenance_sha256 : String
  pub previous_heartbeat_sha256 : Option String

-- `artifact_sha256` of a manifest.
pub record ArtifactHashes : Type 0 where
  pub account_event : String
  pub account_state : String
  pub heartbeat : String
  pub heartbeat_payload : String
  pub runtime_provenance : String

-- `artifact_sha256` is `none` where it is no object with exactly these keys.
pub record HeartbeatManifest : Type 0 where
  pub heartbeat_sha256 : Option String
  pub account_state_sha256 : Option String
  pub runtime_provenance_sha256 : Option String
  pub previous_heartbeat_sha256 : Option String
  pub account_event_sha256 : Option String
  pub generation_root_sha256 : Option String
  pub artifact_sha256 : Option ArtifactHashes

-- complete.json of a heartbeat; a missing version reads as 0.
pub record HeartbeatComplete : Type 0 where
  pub version : ℕ
  pub paper_only : Bool
  pub commit_id : Option String
  pub manifest : Option HeartbeatManifest

-- That file: not there, one that does not parse, or an object. Another JSON value counts as one that does not parse.
pub data HeartbeatCompleteFile : Type 0 where
  no_complete torn_complete : HeartbeatCompleteFile
  complete_of : HeartbeatComplete → HeartbeatCompleteFile

-- The directory of a generation; a file is `none` where it is not there or does not parse.
pub record Directory : Type 0 where
  pub heartbeat : Option HeartbeatRecord
  pub account_state : Option String
  pub runtime_provenance : Option String
  pub account_event : Option Event
  pub heartbeat_payload : Option Payload
  pub complete : HeartbeatCompleteFile

-- heartbeat-transaction.json. `base_account_sha256` is `none` if the key is missing or is neither null nor a text; `record`,
-- `heartbeat_payload` and `account_event` are `none` where they are no objects.
pub record HeartbeatTransaction : Type 0 where
  pub version : Option ℕ
  pub paper_only : Bool
  pub commit_id : String
  pub base_account_sha256 : Option (Option String)
  pub account : String
  pub heartbeat : Option HeartbeatRecord
  pub heartbeat_payload : Option Payload
  pub runtime_provenance : String
  pub account_event : Option Event
  pub generation_root_sha256 : Option String
  pub intent_sha256 : Option String

pub data HeartbeatTransactionFile : Type 0 where
  no_transaction torn_transaction : HeartbeatTransactionFile
  transaction_of : HeartbeatTransaction → HeartbeatTransactionFile

-- What is on disk. The markers of the reconcile generations, and whether these are intact, are constants of it.
pub record HeartbeatDisk : Type 0 where
  pub account : Option String
  pub rows : List (RowLine HeartbeatRecord)
  pub directories : List (String × Directory)
  pub events : List Line
  pub markers : List Marker
  pub reconcile_pending : Bool
  pub transaction : HeartbeatTransactionFile

-- `canonical_json_sha256` of the objects of this module, and the name of a generation's directory, the hash of the row's
-- identity.
pub record HeartbeatCanonical : Type 0 where
  pub of_text : String → String
  pub of_event : Event → String
  pub of_payload : Payload → String
  pub of_record : HeartbeatRecord → String
  pub of_root : HeartbeatRoot → String
  pub of_intent : HeartbeatTransaction → String
  pub directory_name : String → String → String

-- `verify_runtime_provenance`, and the account that `PaperAccount.from_dict` and `to_dict` make of a value.
pub record HeartbeatOthers : Type 0 where
  pub provenance_valid : String → Bool
  pub reread_account : String → Outcome String
