-- ===== src/Heartbeat/Writes.antt =====
-- The durable writes of a heartbeat recovery in futures_fund/heartbeat.py, one by one. A write is one atomic step.
use gpt_market_neutral_crypt.Prelude.{
  ℕ, Bool, true, false, Option, none, some, List, [], ◌∷◌, ◌++◌, String, ◌==◌, if◌then◌else◌,
  Outcome, value, raised, lookup, assign,
}
use gpt_market_neutral_crypt.Events.{Event, Line}
use gpt_market_neutral_crypt.Events.References.{
  Beat, BeatLine, blank_beat, malformed_beat, beat, Generations,
}
use gpt_market_neutral_crypt.Events.Append.{append_account_event}
use gpt_market_neutral_crypt.Ledger.{RowLine, blank, malformed, row}
use gpt_market_neutral_crypt.Heartbeat.{
  Payload, HeartbeatRecord, HeartbeatComplete, complete_of, Directory, HeartbeatTransaction,
  HeartbeatDisk, HeartbeatCanonical, HeartbeatOthers,
}
use gpt_market_neutral_crypt.Heartbeat.Records.{record_identity, version_of}
use gpt_market_neutral_crypt.Heartbeat.Completion.{
  name_of, directory_at, hashes_of, verify_heartbeat_completion,
}
use gpt_market_neutral_crypt.Heartbeat.History.{append_heartbeat}

-- The durable writes, in the directory of the row's generation but for the account, the ledger and the event chain.
pub data HeartbeatWrite : Type 0 where
  put_account put_state put_provenance : String → HeartbeatWrite
  put_heartbeat : HeartbeatRecord → HeartbeatWrite
  put_event : Event → HeartbeatWrite
  put_payload : Payload → HeartbeatWrite
  index_heartbeat : HeartbeatRecord → HeartbeatWrite
  chain_event : Event → HeartbeatWrite
  put_complete : HeartbeatComplete → HeartbeatWrite

module _ (sha : HeartbeatCanonical) (o : HeartbeatOthers) where
  -- The row as the reference check reads it. A verification that raises counts as a failure: the check raises on both.
  unfoldable pub beat_of : (HeartbeatRecord → Outcome Bool) → HeartbeatRecord → Beat
  beat_of intact r = record {
    version = version_of r;
    commit_id = r.commit_id;
    account_state_sha256 = r.account_state_sha256;
    account_event_sha256 = r.account_event_sha256;
    intact = elim (intact r) as (λ _. Bool) [ raised ↦ false | value holds ↦ holds ];
  }

  unfoldable pub beat_lines :
      (HeartbeatRecord → Outcome Bool) → List (RowLine HeartbeatRecord) → List BeatLine
  unfolding beat_of
  beat_lines intact [] = []
  beat_lines intact (blank ∷ lines) = blank_beat ∷ beat_lines intact lines
  beat_lines intact (malformed ∷ lines) = malformed_beat ∷ beat_lines intact lines
  beat_lines intact (row r ∷ lines) = beat (beat_of intact r) ∷ beat_lines intact lines

  unfoldable pub heartbeat_generations : HeartbeatDisk → Generations
  unfolding beat_lines
  heartbeat_generations d = record {
    markers = d.markers;
    beats = beat_lines (verify_heartbeat_completion sha o d) d.rows;
  }

  -- complete.json of a transaction.
  unfoldable pub heartbeat_completion :
      HeartbeatTransaction → ℕ → HeartbeatRecord → Event → Option Payload → HeartbeatComplete
  heartbeat_completion t v r e payload = record {
    version = v;
    paper_only = true;
    commit_id = r.commit_id;
    manifest = some (record {
      heartbeat_sha256 = some (sha.of_record r);
      account_state_sha256 = r.account_state_sha256;
      runtime_provenance_sha256 = r.runtime_provenance_sha256;
      previous_heartbeat_sha256 = r.previous_heartbeat_sha256;
      account_event_sha256 = r.account_event_sha256;
      generation_root_sha256 = if v == 4 then r.generation_root_sha256 else none;
      artifact_sha256 = elim payload as (λ _. Option _) [
        | none ↦ none
        | some p ↦ some (hashes_of sha o e t.account r p t.runtime_provenance)
      ];
    });
  }

  unfoldable pub payload_write : Option Payload → List HeartbeatWrite
  payload_write none = []
  payload_write (some p) = put_payload p ∷ []

  -- The payload where the version has one.
  unfoldable pub payload_of : HeartbeatTransaction → ℕ → Option Payload
  payload_of t v = if v == 4 then t.heartbeat_payload else none

  -- All writes of a recovery; the completion marker is the last.
  unfoldable pub heartbeat_publication :
      HeartbeatTransaction → ℕ → HeartbeatRecord → Event → String → List HeartbeatWrite
  unfolding payload_write payload_of heartbeat_completion
  heartbeat_publication t v r e account =
      put_account account
      ∷ put_state t.account
      ∷ put_provenance t.runtime_provenance
      ∷ put_heartbeat r
      ∷ put_event e
      ∷ (payload_write (payload_of t v)
          ++ index_heartbeat r
            ∷ chain_event e
            ∷ put_complete (heartbeat_completion t v r e (payload_of t v))
            ∷ [])

  unfoldable pub in_named :
      HeartbeatDisk
      → (Directory → Directory)
      → Outcome (String × String)
      → Outcome (Unit {0}) × HeartbeatDisk
  unfolding lookup assign directory_at name_of
  in_named d change raised = (raised, d)
  in_named d change (value id) =
      let name = name_of sha o id in
      let f = directory_at sha o (lookup name d.directories) in
      (value tt, record d { directories = assign name (change f) d.directories })

  -- The directory with a file that is written; the directory is made where it is missing.
  unfoldable pub in_directory :
      HeartbeatDisk → HeartbeatRecord → (Directory → Directory) → Outcome (Unit {0}) × HeartbeatDisk
  unfolding in_named
  in_directory d r change = in_named d change (record_identity r)

  abbrev with_events :
      HeartbeatDisk → Outcome (Unit {0}) × List Line → Outcome (Unit {0}) × HeartbeatDisk
  with_events d (r, lines) = (r, record d { events = lines })

  -- One write of a row's transaction: how it ends, and the disk after it.
  unfoldable pub put :
      HeartbeatRecord → HeartbeatWrite → HeartbeatDisk → Outcome (Unit {0}) × HeartbeatDisk
  unfolding in_directory heartbeat_generations
  put r (put_account a) d = (value tt, record d { account = some a })
  put r (put_state a) d = in_directory d r (λ f. record f { account_state = some a })
  put r (put_provenance p) d = in_directory d r (λ f. record f { runtime_provenance = some p })
  put r (put_heartbeat x) d = in_directory d r (λ f. record f { heartbeat = some x })
  put r (put_event e) d = in_directory d r (λ f. record f { account_event = some e })
  put r (put_payload p) d = in_directory d r (λ f. record f { heartbeat_payload = some p })
  put r (index_heartbeat x) d = append_heartbeat sha o d x true
  put r (chain_event e) d =
      with_events d (append_account_event sha.of_event (heartbeat_generations d) d.events e)
  put r (put_complete c) d = in_directory d r (λ f. record f { complete = complete_of c })

  unfoldable pub carry_on :
      (HeartbeatDisk → Outcome (Unit {0}) × HeartbeatDisk)
      → Outcome (Unit {0}) × HeartbeatDisk
      → Outcome (Unit {0}) × HeartbeatDisk
  carry_on later (raised, d) = (raised, d)
  carry_on later (value _, d) = later d

  -- The writes in their order, up to the first that raises.
  unfoldable pub put_all :
      HeartbeatRecord → List HeartbeatWrite → HeartbeatDisk → Outcome (Unit {0}) × HeartbeatDisk
  unfolding put carry_on
  put_all r [] d = (value tt, d)
  put_all r (w ∷ ws) d = carry_on (put_all r ws) (put r w d)
