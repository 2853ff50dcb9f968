-- ===== src/Heartbeat/Completion.antt =====
-- `verify_heartbeat_completion` of futures_fund/heartbeat.py: when the generation of a row is intact.
pub mod Bound
use gpt_market_neutral_crypt.Prelude.{
  ℕ, Bool, true, false, ◌||◌, ◌&&◌, not, Option, none, some, List, [], ◌∷◌, String, str_eq, opt_eq,
  leb, ◌==◌, if◌then◌else◌, Outcome, value, raised, ◌>>=◌, ◌>>◌, raise_if, lookup,
}
use gpt_market_neutral_crypt.Events.{Event, Line, heartbeat, load_account_events}
use gpt_market_neutral_crypt.Events.References.{event_eq, kind_eq}
use gpt_market_neutral_crypt.Heartbeat.{
  Payload, HeartbeatRecord, HeartbeatRoot, ArtifactHashes, HeartbeatManifest, HeartbeatComplete,
  HeartbeatCompleteFile, no_complete, torn_complete, complete_of, Directory, HeartbeatDisk,
  HeartbeatCanonical, HeartbeatOthers,
}
use gpt_market_neutral_crypt.Heartbeat.Records.{
  payload_eq, record_eq, record_identity, version_of, is_hashed,
}

abbrev pub empty_directory : Directory
empty_directory = record {
  heartbeat = none;
  account_state = none;
  runtime_provenance = none;
  account_event = none;
  heartbeat_payload = none;
  complete = no_complete;
}

abbrev hashes_eq : ArtifactHashes → ArtifactHashes → Bool
hashes_eq a b =
    str_eq a.account_event b.account_event
    && (str_eq a.account_state b.account_state
        && (str_eq a.heartbeat b.heartbeat
            && (str_eq a.heartbeat_payload b.heartbeat_payload
                && str_eq a.runtime_provenance b.runtime_provenance)))

unfoldable pub is_hashes : Option ArtifactHashes → ArtifactHashes → Bool
is_hashes none b = false
is_hashes (some a) b = hashes_eq a b

unfoldable pub has_event : Event → List Event → Bool
has_event e [] = false
has_event e (x ∷ events) = event_eq e x || has_event e events

module _ (sha : HeartbeatCanonical) (o : HeartbeatOthers) where
  -- `_record_sha256`
  abbrev pub record_sha : HeartbeatRecord → String
  record_sha r = sha.of_record (record r { record_sha256 = none })

  -- `record.get("record_sha256") == _record_sha256(record)`
  abbrev pub hash_holds : HeartbeatRecord → Bool
  hash_holds r = opt_eq r.record_sha256 (some (record_sha r))

  -- `_heartbeat_generation_root_sha256`
  unfoldable pub heartbeat_root :
      String → Payload → String → String → Option String → Outcome String
  heartbeat_root commit_id payload account_state runtime_provenance previous = do
    raise_if (not (o.provenance_valid runtime_provenance))
    value (
        sha.of_root (record {
          commit_id = commit_id;
          schedule_slot = payload.schedule_slot;
          ts = payload.ts;
          kind = payload.kind;
          heartbeat_payload_sha256 = sha.of_payload payload;
          account_state_sha256 = sha.of_text account_state;
          runtime_provenance_sha256 = sha.of_text runtime_provenance;
          previous_heartbeat_sha256 = previous;
        }))

  unfoldable pub name_of : String × String → String
  name_of (slot, kind) = sha.directory_name slot kind

  unfoldable pub directory_at : Option Directory → Directory
  directory_at none = empty_directory
  directory_at (some f) = f

  unfoldable pub directory_named :
      List (String × Directory) → Outcome (String × String) → Outcome Directory
  unfolding name_of directory_at lookup
  directory_named directories raised = raised
  directory_named directories (value id) = value (directory_at (lookup (name_of id) directories))

  -- The files of a row's generation.
  unfoldable pub directory_of : HeartbeatDisk → HeartbeatRecord → Outcome Directory
  unfolding directory_named
  directory_of d r = directory_named d.directories (record_identity r)

  abbrev pub hashes_of : Event → String → HeartbeatRecord → Payload → String → ArtifactHashes
  hashes_of e account r payload provenance = record {
    account_event = sha.of_event e;
    account_state = sha.of_text account;
    heartbeat = sha.of_record r;
    heartbeat_payload = sha.of_payload payload;
    runtime_provenance = sha.of_text provenance;
  }

  -- The tests of every hashed version.
  unfoldable pub common_valid :
      HeartbeatRecord
      → HeartbeatRecord
      → String
      → String
      → HeartbeatComplete
      → HeartbeatManifest
      → Bool
  common_valid r artifact account provenance c m =
      c.paper_only
      && (opt_eq c.commit_id r.commit_id
          && (record_eq artifact r
              && (opt_eq (some (sha.of_record r)) m.heartbeat_sha256
                  && (opt_eq (some (sha.of_text account)) m.account_state_sha256
                      && (opt_eq (some (sha.of_text provenance)) m.runtime_provenance_sha256
                          && (o.provenance_valid provenance
                              && (opt_eq r.account_state_sha256 (some (sha.of_text account))
                                  && (opt_eq r.runtime_provenance_sha256
                                        (some (sha.of_text provenance))
                                      && opt_eq r.previous_heartbeat_sha256
                                          m.previous_heartbeat_sha256))))))))

  -- The tests that version 3 adds: the account event of the row is one of the chain.
  unfoldable pub event_valid : HeartbeatRecord → HeartbeatManifest → List Event → Event → Bool
  unfolding has_event
  event_valid r m events e =
      has_event e events
      && (kind_eq e.kind heartbeat
          && (opt_eq e.event_id r.commit_id
              && (opt_eq e.event_sha256 r.account_event_sha256
                  && (opt_eq e.event_sha256 m.account_event_sha256
                      && (opt_eq e.base_account_sha256 r.base_account_sha256
                          && (opt_eq e.previous_event_id r.previous_account_event_id
                              && (opt_eq e.previous_event_sha256 r.previous_account_event_sha256
                                  && opt_eq e.account_state_sha256 r.account_state_sha256)))))))

  -- The tests that version 4 adds: the payload and the generation root.
  unfoldable pub root_valid :
      HeartbeatRecord
      → String
      → String
      → HeartbeatComplete
      → HeartbeatManifest
      → Event
      → Payload
      → Outcome String
      → Bool
  root_valid r account provenance c m e payload raised = false
  root_valid r account provenance c m e payload (value expected) =
      payload_eq payload r.payload
      && ((c.version == 4)
          && (is_hashes m.artifact_sha256 (hashes_of e account r payload provenance)
              && (opt_eq m.generation_root_sha256 (some expected)
                  && (opt_eq r.generation_root_sha256 (some expected)
                      && (is_two e.schema_version
                          && opt_eq e.generation_root_sha256 (some expected))))))
    where
      is_two : Option ℕ → Bool
      is_two none = false
      is_two (some v) = v == 2

  unfoldable pub bound_root :
      HeartbeatRecord
      → String
      → String
      → HeartbeatComplete
      → HeartbeatManifest
      → Event
      → Option Payload
      → Bool
  unfolding root_valid heartbeat_root
  bound_root r account provenance c m e none = false
  bound_root r account provenance c m e (some payload) = elim r.commit_id as (λ _. Bool) [
    | none ↦ false
    | some commit_id ↦
        root_valid r account provenance c m e payload
          (heartbeat_root commit_id payload account provenance r.previous_heartbeat_sha256)
  ]

  unfoldable pub bound_event :
      List Line
      → Directory
      → HeartbeatRecord
      → String
      → String
      → HeartbeatComplete
      → HeartbeatManifest
      → Option Event
      → Bool
  unfolding event_valid bound_root
  bound_event lines f r account provenance c m none = false
  bound_event lines f r account provenance c m (some e) =
      elim (load_account_events sha.of_event lines) as (λ _. Bool) [
        | raised ↦ false
        | value events ↦
            event_valid r m events e
            && ((version_of r == 3) || bound_root r account provenance c m e f.heartbeat_payload)
      ]

  unfoldable pub files_valid :
      List Line
      → Directory
      → HeartbeatRecord
      → Option HeartbeatRecord
      → Option String
      → Option String
      → HeartbeatCompleteFile
      → Bool
  unfolding common_valid bound_event
  files_valid lines f r (some artifact) (some account) (some provenance) (complete_of c) =
      elim c.manifest as (λ _. Bool) [
        | none ↦ false
        | some m ↦
            common_valid r artifact account provenance c m
            && ((version_of r == 2) || bound_event lines f r account provenance c m f.account_event)
      ]
  files_valid lines f r _ _ _ _ = false

  -- `verify_heartbeat_completion`
  unfoldable pub verify_heartbeat_completion : HeartbeatDisk → HeartbeatRecord → Outcome Bool
  unfolding directory_of files_valid
  verify_heartbeat_completion d r =
      if not (is_hashed (version_of r)) || not (hash_holds r) then value false else (do
        f ← directory_of d r
        value
            (files_valid d.events f r f.heartbeat f.account_state f.runtime_provenance f.complete))
