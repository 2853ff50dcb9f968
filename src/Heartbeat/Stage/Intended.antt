-- ===== src/Heartbeat/Stage/Intended.antt =====
-- The transaction that `stage_heartbeat_transaction` of futures_fund/heartbeat.py makes passes the tests of the recovery.
use gpt_market_neutral_crypt.Prelude.{
  ◌≡◌, refl, true, not, Option, none, some, List, String, arith, sym, ◌∙◌, subst, value, raise_if,
  >>=-eq-value, value-injective, opt_eq, opt_eq_iff,
}
use gpt_market_neutral_crypt.Events.{Event, load_account_events}
use gpt_market_neutral_crypt.Events.Chain.{NewId}
use gpt_market_neutral_crypt.Events.References.{verify_account_event_references}
use gpt_market_neutral_crypt.Events.Append.{prepare_account_event}
use gpt_market_neutral_crypt.Events.Append.Preparing.{prepare_account_event_lem}
use gpt_market_neutral_crypt.Ledger.{jsonl_rows}
use gpt_market_neutral_crypt.Heartbeat.{
  Payload, HeartbeatRecord, HeartbeatTransaction, HeartbeatDisk, HeartbeatCanonical,
  HeartbeatOthers,
}
use gpt_market_neutral_crypt.Heartbeat.Records.{payload_eq, payload_eq_iff, is_official}
use gpt_market_neutral_crypt.Heartbeat.Completion.{heartbeat_root}
use gpt_market_neutral_crypt.Heartbeat.History.{
  sorted_official, head_sha, latest, verify_heartbeat_history,
}
use gpt_market_neutral_crypt.Heartbeat.Recovery.{
  is_filled, sound_heartbeat, supported_transaction, heartbeat_in, event_in, payload_in,
  event_matches, payload_matches,
}
use gpt_market_neutral_crypt.Heartbeat.Writes.{heartbeat_generations}
use gpt_market_neutral_crypt.Heartbeat.Stage.{
  HeartbeatProposal, HeartbeatSources, reserved_fields, time_in, provenance_in, heartbeat_intent,
  prepared, with_hash, heartbeat_body, with_intent, intend_heartbeat,
}

-- What `settle_funding_heartbeat` makes: an official paper row with a time.
abbrev pub IsMeasured : Payload → Type 0
IsMeasured p =
    (p.kind ≡ some "token_free_funding_heartbeat") × (p.paper_only ≡ true) × (is_filled p.ts ≡ true)

opt_eq_refl : (a : Option String) → opt_eq a a ≡ true
opt_eq_refl a = (opt_eq_iff a a).1 refl

text_refl : (a : String) → opt_eq (some a) (some a) ≡ true
text_refl a = opt_eq_refl (some a)

payload_eq_refl : (p : Payload) → payload_eq p p ≡ true
payload_eq_refl p = (payload_eq_iff p p).1 refl

module _ (sha : HeartbeatCanonical) (o : HeartbeatOthers) (s : HeartbeatSources) where
  -- The transaction that staging makes of its parts.
  abbrev made :
      String → HeartbeatProposal → String → Option String → String → Event → HeartbeatTransaction
  made commit_id p provenance previous root e = with_intent sha o s (
      heartbeat_body sha o s commit_id p provenance root e
        (with_hash sha o s (prepared sha o s commit_id p provenance previous root e)))

  abbrev made_row :
      String → HeartbeatProposal → String → Option String → String → Event → HeartbeatRecord
  made_row commit_id p provenance previous root e =
      with_hash sha o s (prepared sha o s commit_id p provenance previous root e)

  row_measured :
      (r : HeartbeatRecord) → IsMeasured r.payload → heartbeat_in sha o (some r) ≡ value r
  unfolding heartbeat_in
  row_measured r (kind, paper, filled) =
      let official : is_official r ≡ true = (opt_eq_iff _ _).1 kind in
      ground (arith, official, paper, filled)

  row_matches :
      (commit_id : String) (p : HeartbeatProposal) (provenance : String) (previous : Option String)
      (root : String) (e : Event)
      → e.base_account_sha256 ≡ p.expected_base_account_sha256
      → e.account_state_sha256 ≡ some (sha.of_text p.account)
      → event_matches sha o (made_row commit_id p provenance previous root e) e ≡ true
  unfolding event_matches with_hash prepared
  row_matches commit_id p provenance previous root e base state =
      let a = opt_eq_refl e.event_sha256 in
      let b : opt_eq p.expected_base_account_sha256 e.base_account_sha256 ≡ true =
        (opt_eq_iff _ _).1 (sym base) in
      let c = opt_eq_refl e.previous_event_id in
      let k = opt_eq_refl e.previous_event_sha256 in
      let l : opt_eq (some (sha.of_text p.account)) e.account_state_sha256 ≡ true =
        (opt_eq_iff _ _).1 (sym state) in
      rw (a, b, c, k, l) refl

  payload_held :
      (commit_id : String) (p : HeartbeatProposal) (provenance : String) (previous : Option String)
      (root : String) (e : Event)
      → e.generation_root_sha256 ≡ some root
      → heartbeat_root sha o commit_id p.heartbeat.payload p.account provenance previous
        ≡ value root
      → payload_matches sha o
          (made commit_id p provenance previous root e)
          (made_row commit_id p provenance previous root e)
          e
          4
        ≡ value tt
  unfolding payload_matches payload_in with_intent heartbeat_body with_hash prepared
  payload_held commit_id p provenance previous root e bound found =
      let same : opt_eq e.generation_root_sha256 (some root) ≡ true = (opt_eq_iff _ _).1 bound in
      rw (found, payload_eq_refl p.heartbeat.payload, text_refl root, same) refl

  made_sound :
      (commit_id : String) (p : HeartbeatProposal) (provenance : String) (previous : Option String)
      (root : String) (e : Event)
      → IsMeasured p.heartbeat.payload
      → o.provenance_valid provenance ≡ true
      → e.base_account_sha256 ≡ p.expected_base_account_sha256
      → e.account_state_sha256 ≡ some (sha.of_text p.account)
      → e.generation_root_sha256 ≡ some root
      → heartbeat_root sha o commit_id p.heartbeat.payload p.account provenance previous
        ≡ value root
      → sound_heartbeat sha o (made commit_id p provenance previous root e)
        ≡ value (4, made_row commit_id p provenance previous root e, e)
  unfolding sound_heartbeat supported_transaction event_in with_intent heartbeat_body with_hash
      prepared
  made_sound commit_id p provenance previous root e measured valid base state bound found =
      rw
        (
          row_measured (made_row commit_id p provenance previous root e) measured,
          valid,
          text_refl,
          text_refl,
          text_refl,
          text_refl,
          row_matches commit_id p provenance previous root e base state,
          payload_held commit_id p provenance previous root e bound found,
        )
        refl

  -- What a successful intent has found, and the transaction that it has made.
  abbrev Intends :
      String
      → HeartbeatProposal
      → HeartbeatDisk
      → HeartbeatTransaction
      → HeartbeatRecord
      → Event
      → Type 0
  Intends commit_id p d t r e =
      (sound_heartbeat sha o t ≡ value (4, r, e))
      × (t.base_account_sha256 ≡ some p.expected_base_account_sha256)
      × (t.account ≡ p.account)
      × (r.commit_id ≡ some commit_id)
      × (r.payload ≡ p.heartbeat.payload)
      × (e.event_id ≡ some commit_id)
      × (verify_heartbeat_history sha o d none ≡ value tt)
      × ((events : List Event) × (load_account_events sha.of_event d.events ≡ value events)
          × (NewId e.event_id events
              → verify_account_event_references sha.of_event (heartbeat_generations sha o d)
                  d.events (some e)
                ≡ value tt))

  pub intend_heartbeat-Intends :
      (commit_id : String) (p : HeartbeatProposal) (d : HeartbeatDisk) (t : HeartbeatTransaction)
      → IsMeasured p.heartbeat.payload
      → intend_heartbeat sha o s commit_id p d ≡ value t
      → (r : HeartbeatRecord) × (e : Event) × Intends commit_id p d t r e
  unfolding intend_heartbeat with_intent heartbeat_body with_hash prepared
  intend_heartbeat-Intends commit_id p d t measured h =
      let (_, history, h1) = >>=-eq-value (verify_heartbeat_history sha o d none) _ h in
      let (rows, _, h2) = >>=-eq-value (jsonl_rows d.rows) _ h1 in
      let (prior, _, h3) = >>=-eq-value (sorted_official rows) _ h2 in
      let (ts, _, h4) = >>=-eq-value (time_in p.heartbeat.payload.ts) _ h3 in
      let (provenance, _, h5) = >>=-eq-value (provenance_in sha o s p.runtime_provenance ts) _ h4 in
      let (_, valid, h6) = >>=-eq-value (raise_if (not (o.provenance_valid provenance))) _ h5 in
      let (_, _, h7) = >>=-eq-value (raise_if (reserved_fields p.heartbeat)) _ h6 in
      let previous = head_sha sha o (latest sha o prior) in
      let (root, found, h8) =
        >>=-eq-value
          (heartbeat_root sha o commit_id p.heartbeat.payload p.account provenance previous) _ h7 in
      let (e, event, h9) =
        >>=-eq-value
          (prepare_account_event sha.of_event (heartbeat_generations sha o d) d.events
            (heartbeat_intent sha o s commit_id p ts root))
          _ h8 in
      let ((_, id, _, state, bound, base), (events, load, _, pending)) =
        prepare_account_event_lem sha.of_event (heartbeat_generations sha o d) d.events
          (heartbeat_intent sha o s commit_id p ts root) e event in
      let genuine : o.provenance_valid provenance ≡ true = ground arith in
      let r = made_row commit_id p provenance previous root e in
      (
        r,
        e,
        subst (λ (x : HeartbeatTransaction). Intends commit_id p d x r e) (value-injective h9)
            (
              made_sound commit_id p provenance previous root e measured genuine base state bound
                  found,
              refl,
              refl,
              refl,
              refl,
              id,
              history ∙ refl,
              (events, load, pending),
            ),
      )
