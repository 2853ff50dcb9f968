-- ===== src/Heartbeat/Recovery.antt =====
-- `recover_heartbeat_transaction` of futures_fund/heartbeat.py, with every durable write as one atomic step.
pub mod Invariants
pub mod Outcomes
pub mod Raises
pub mod Marker
pub mod Files
use gpt_market_neutral_crypt.Prelude.{
  ℕ, Bool, true, false, ◌||◌, ◌&&◌, not, Option, none, some, List, [], ◌∷◌, ◌++◌, String, str_eq,
  opt_eq, ◌==◌, leb, if◌then◌else◌, Outcome, value, raised, ◌>>=◌, ◌>>◌, raise_if, is_text, lookup,
  assign,
}
use gpt_market_neutral_crypt.Events.{Event, Line}
use gpt_market_neutral_crypt.Events.References.{
  Beat, BeatLine, blank_beat, malformed_beat, beat, Generations, verify_account_event_references,
}
use gpt_market_neutral_crypt.Events.Append.{append_account_event}
use gpt_market_neutral_crypt.Ledger.{RowLine, blank, malformed, row, jsonl_rows}
use gpt_market_neutral_crypt.Heartbeat.{
  Payload, HeartbeatRecord, HeartbeatManifest, HeartbeatComplete, HeartbeatCompleteFile,
  no_complete, torn_complete, complete_of, Directory, HeartbeatTransaction,
  HeartbeatTransactionFile, no_transaction, torn_transaction, transaction_of, HeartbeatDisk,
  HeartbeatCanonical, HeartbeatOthers,
}
use gpt_market_neutral_crypt.Heartbeat.Records.{
  non_empty, payload_eq, record_eq, record_identity, is_official, version_of,
}
use gpt_market_neutral_crypt.Heartbeat.Completion.{
  hash_holds, heartbeat_root, name_of, directory_at, directory_of, hashes_of,
  verify_heartbeat_completion,
}
use gpt_market_neutral_crypt.Heartbeat.History.{verify_heartbeat_history, append_heartbeat}
use gpt_market_neutral_crypt.Heartbeat.Writes.{
  heartbeat_generations, heartbeat_publication, put_all,
}

-- How a recovery ends: there is no transaction, or the one of a time is closed, which was complete already or not.
pub data HeartbeatResult : Type 0 where
  nothing_pending : HeartbeatResult
  replayed : Option String → Bool → HeartbeatResult

abbrev holds_record : HeartbeatRecord → List HeartbeatRecord → Bool
holds_record r [] = false
holds_record r (x ∷ rows) = record_eq r x || holds_record r rows

abbrev pub is_filled : Option String → Bool
is_filled t = elim (non_empty t) as (λ _. Bool) [ raised ↦ false | value _ ↦ true ]

module _ (sha : HeartbeatCanonical) (o : HeartbeatOthers) where
  unfoldable pub supported_transaction : HeartbeatTransaction → Outcome ℕ
  supported_transaction t = elim t.version as (λ _. Outcome ℕ) [
    | none ↦ raised
    | some v ↦
        raise_if (not (leb 1 v && leb v 4) || not t.paper_only)
        >> raise_if (not (v == 3 || v == 4))
        >> value v
  ]

  unfoldable pub heartbeat_in : Option HeartbeatRecord → Outcome HeartbeatRecord
  heartbeat_in none = raised
  heartbeat_in (some r) = do
    raise_if (not r.payload.paper_only || (not (is_official r) || not (is_filled r.payload.ts)))
    value r

  unfoldable pub event_in : Option Event → Outcome Event
  event_in none = raised
  event_in (some e) = value e

  unfoldable pub payload_in : Option Payload → Outcome Payload
  payload_in none = raised
  payload_in (some p) = value p

  abbrev has_base : HeartbeatTransaction → Bool
  has_base t = elim t.base_account_sha256 as (λ _. Bool) [ none ↦ false | some _ ↦ true ]

  -- The binding of the row and its account event.
  unfoldable pub event_matches : HeartbeatRecord → Event → Bool
  event_matches r e =
      opt_eq r.account_event_sha256 e.event_sha256
      && (opt_eq r.base_account_sha256 e.base_account_sha256
          && (opt_eq r.previous_account_event_id e.previous_event_id
              && (opt_eq r.previous_account_event_sha256 e.previous_event_sha256
                  && opt_eq r.account_state_sha256 e.account_state_sha256)))

  -- The test of the payload and of the generation root, in version 4.
  unfoldable pub payload_matches :
      HeartbeatTransaction → HeartbeatRecord → Event → ℕ → Outcome (Unit {0})
  unfolding payload_in
  payload_matches t r e v =
      if v == 4
      then (do
        payload ← payload_in t.heartbeat_payload
        expected ←
            heartbeat_root sha o t.commit_id payload t.account t.runtime_provenance
              r.previous_heartbeat_sha256
        raise_if (
            not (payload_eq payload r.payload)
            || (not (opt_eq t.generation_root_sha256 (some expected))
                || (not (opt_eq r.generation_root_sha256 (some expected))
                    || not (opt_eq e.generation_root_sha256 (some expected))))))
      else value tt

  -- The tests on the transaction alone.
  unfoldable pub sound_heartbeat : HeartbeatTransaction → Outcome (ℕ × HeartbeatRecord × Event)
  unfolding supported_transaction heartbeat_in event_in event_matches payload_matches
  sound_heartbeat t = do
    v ← supported_transaction t
    r ← heartbeat_in t.heartbeat
    raise_if
        (not (opt_eq (some (sha.of_intent (record t { intent_sha256 = none }))) t.intent_sha256))
    raise_if (not (has_base t))
    raise_if (not (o.provenance_valid t.runtime_provenance))
    raise_if (not (hash_holds sha o r))
    raise_if (not (opt_eq r.account_state_sha256 (some (sha.of_text t.account))))
    raise_if (not (opt_eq r.runtime_provenance_sha256 (some (sha.of_text t.runtime_provenance))))
    e ← event_in t.account_event
    raise_if (not (event_matches r e))
    payload_matches t r e v
    value (v, r, e)

  -- The completion marker that is there must carry the row's commit id.
  unfoldable pub marker_agrees : HeartbeatRecord → HeartbeatCompleteFile → Outcome (Unit {0})
  marker_agrees r no_complete = value tt
  marker_agrees r torn_complete = raised
  marker_agrees r (complete_of c) = raise_if (not (opt_eq c.commit_id r.commit_id))

  -- The tests on the disk in front of the first write; `true` if the generation is intact already.
  unfoldable pub ready : HeartbeatDisk → HeartbeatRecord → Event → Outcome Bool
  unfolding marker_agrees
  ready d r e = do
    verify_heartbeat_history sha o d (some r)
    verify_account_event_references sha.of_event (heartbeat_generations sha o d) d.events (some e)
    intact ← verify_heartbeat_completion sha o d r
    f ← directory_of sha o d r
    marker_agrees r f.complete
    value intact

  abbrev pub close : HeartbeatDisk → HeartbeatDisk
  close d = record d { transaction = no_transaction }

  -- The account on disk is the one of the row.
  unfoldable pub account_matches : Option String → HeartbeatRecord → Bool
  account_matches none r = false
  account_matches (some a) r = opt_eq (some (sha.of_text a)) r.account_state_sha256

  unfoldable pub is_indexed : HeartbeatRecord → Outcome (List HeartbeatRecord) → Bool
  is_indexed r raised = false
  is_indexed r (value rows) = holds_record r rows

  -- The end of a generation that is intact already.
  unfoldable pub already_complete :
      HeartbeatDisk → HeartbeatRecord → Outcome HeartbeatResult × HeartbeatDisk
  unfolding account_matches is_indexed
  already_complete d r =
      if account_matches d.account r && is_indexed r (jsonl_rows d.rows)
      then (value (replayed r.payload.ts true), close d)
      else (raised, d)

  -- `verify_account_lineage`
  unfoldable pub lineage_holds : Option String → Option (Option String) → String → Bool
  lineage_holds account none target = false
  lineage_holds account (some base) target =
      let current = elim account as (λ _. Option String) [
        | none ↦ none
        | some a ↦ some (sha.of_text a)
      ] in
      opt_eq current base || opt_eq current (some target)

  abbrev is_intact : Outcome Bool → Bool
  is_intact raised = false
  is_intact (value b) = b

  -- The tests behind the last write, and the end of the transaction.
  unfoldable pub closed :
      HeartbeatRecord → Outcome (Unit {0}) × HeartbeatDisk → Outcome HeartbeatResult × HeartbeatDisk
  unfolding account_matches
  closed r (raised, d) = (raised, d)
  closed r (value _, d) =
      if is_intact (verify_heartbeat_completion sha o d r) && account_matches d.account r
      then (value (replayed r.payload.ts false), close d)
      else (raised, d)

  -- The tests of the account, and the writes.
  unfoldable pub replay :
      HeartbeatDisk
      → HeartbeatTransaction
      → ℕ
      → HeartbeatRecord
      → Event
      → Outcome String
      → Outcome HeartbeatResult × HeartbeatDisk
  unfolding lineage_holds heartbeat_publication put_all closed
  replay d t v r e raised = (raised, d)
  replay d t v r e (value account) =
      if lineage_holds d.account t.base_account_sha256 (sha.of_text account)
      then closed r (put_all sha o r (heartbeat_publication sha o t v r e account) d)
      else (raised, d)

  unfoldable pub settle_transaction :
      HeartbeatDisk
      → HeartbeatTransaction
      → ℕ
      → HeartbeatRecord
      → Event
      → Outcome Bool
      → Outcome HeartbeatResult × HeartbeatDisk
  unfolding already_complete replay
  settle_transaction d t v r e raised = (raised, d)
  settle_transaction d t v r e (value true) = already_complete d r
  settle_transaction d t v r e (value false) = replay d t v r e (o.reread_account t.account)

  unfoldable pub continue_heartbeat :
      HeartbeatDisk
      → HeartbeatTransaction
      → Outcome (ℕ × HeartbeatRecord × Event)
      → Outcome HeartbeatResult × HeartbeatDisk
  unfolding settle_transaction ready
  continue_heartbeat d t raised = (raised, d)
  continue_heartbeat d t (value (v, r, e)) = settle_transaction d t v r e (ready d r e)

  -- `_recover_heartbeat_transaction_unlocked`
  unfoldable pub recover_heartbeat_transaction :
      HeartbeatDisk → Outcome HeartbeatResult × HeartbeatDisk
  unfolding continue_heartbeat sound_heartbeat
  recover_heartbeat_transaction d =
      elim d.transaction as (λ _. Outcome HeartbeatResult × HeartbeatDisk) [
        | no_transaction ↦ (value nothing_pending, d)
        | torn_transaction ↦ (raised, d)
        | transaction_of t ↦
            if d.reconcile_pending then (raised, d) else continue_heartbeat d t (sound_heartbeat t)
      ]
