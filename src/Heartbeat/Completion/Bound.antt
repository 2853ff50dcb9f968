-- ===== src/Heartbeat/Completion/Bound.antt =====
-- What `verify_heartbeat_completion` of futures_fund/heartbeat.py has checked of a generation of version 4.
use gpt_market_neutral_crypt.Prelude.{
  ◌≡◌, refl, inl, inr, Bool, true, false, ◌||◌, ◌&&◌, not, Option, none, some, List, [], ◌∷◌,
  String, arith, sym, ap, ◌∙◌, In, Bool-cases, Outcome, value, raised, >>=-eq-value,
  value-injective, opt_eq, opt_eq_iff, ◌==◌, Outcome-cases, Option-cases, ◌>>=◌,
}
use gpt_market_neutral_crypt.Events.{Event, Line, heartbeat, load_account_events}
use gpt_market_neutral_crypt.Events.References.{event_eq, event_eq_iff, kind_eq}
use gpt_market_neutral_crypt.Heartbeat.{
  Payload, HeartbeatRecord, HeartbeatManifest, HeartbeatComplete, HeartbeatCompleteFile,
  no_complete, torn_complete, complete_of, Directory, HeartbeatDisk, HeartbeatCanonical,
  HeartbeatOthers,
}
use gpt_market_neutral_crypt.Heartbeat.Records.{
  payload_eq_iff, record_eq_iff, version_of, is_hashed,
}
use gpt_market_neutral_crypt.Heartbeat.Completion.{
  record_sha, hash_holds, heartbeat_root, directory_of, common_valid, has_event, event_valid,
  root_valid, bound_root, bound_event, files_valid, verify_heartbeat_completion,
}

has_event-In : (e : Event) (events : List Event) → has_event e events ≡ true → In e events
unfolding has_event
has_event-In e [] h = absurd (ground arith)
has_event-In e (x ∷ events) h = elim (Bool-cases (event_eq e x)) [
  | inl same ↦ inl ((event_eq_iff e x).0 same)
  | inr other ↦ inr (has_event-In e events (ground (arith, other, h)))
]

both_true : (x y : Bool) → (x && y) ≡ true → (x ≡ true) × (y ≡ true)
both_true x y h = ground (arith, h)

second_true : (x y : Bool) → x ≡ false → (x || y) ≡ true → y ≡ true
second_true x y f h = ground (arith, f, h)

module _ (sha : HeartbeatCanonical) (o : HeartbeatOthers) where
  -- The files of the row's directory are those that the row names by hash.
  abbrev FilesBound : HeartbeatRecord → Directory → String → String → HeartbeatComplete → Type 0
  FilesBound r f account provenance c =
      (f.heartbeat ≡ some r)
      × (f.account_state ≡ some account)
      × (f.runtime_provenance ≡ some provenance)
      × (f.complete ≡ complete_of c)
      × (c.paper_only ≡ true)
      × (c.commit_id ≡ r.commit_id)
      × (r.account_state_sha256 ≡ some (sha.of_text account))
      × (r.runtime_provenance_sha256 ≡ some (sha.of_text provenance))
      × (o.provenance_valid provenance ≡ true)

  -- The account event of the row is one of the chain.
  abbrev EventBound : HeartbeatRecord → List Event → Event → Type 0
  EventBound r events e =
      In e events
      × (e.kind ≡ heartbeat)
      × (e.event_id ≡ r.commit_id)
      × (e.event_sha256 ≡ r.account_event_sha256)
      × (e.base_account_sha256 ≡ r.base_account_sha256)
      × (e.account_state_sha256 ≡ r.account_state_sha256)

  event_valid-EventBound :
      (r : HeartbeatRecord) (m : HeartbeatManifest) (events : List Event) (e : Event)
      → event_valid sha o r m events e ≡ true
      → EventBound r events e
  unfolding event_valid kind_eq
  event_valid-EventBound r m events e h = (
    has_event-In e events (ground arith),
    ground arith,
    (opt_eq_iff _ _).0 (ground arith),
    (opt_eq_iff _ _).0 (ground arith),
    (opt_eq_iff _ _).0 (ground arith),
    (opt_eq_iff _ _).0 (ground arith),
  )

  -- The generation root of the row is that of its commit id, its payload and its files.
  abbrev RootBound : HeartbeatRecord → String → String → Event → Type 0
  RootBound r account provenance e =
      (commit_id : String) × (root : String) × (r.commit_id ≡ some commit_id)
      × (heartbeat_root sha o commit_id r.payload account provenance r.previous_heartbeat_sha256
          ≡ value root)
      × (r.generation_root_sha256 ≡ some root)
      × (e.generation_root_sha256 ≡ some root)

  root_valid-Bound :
      (r : HeartbeatRecord) (account provenance : String) (c : HeartbeatComplete)
      (m : HeartbeatManifest) (e : Event) (payload : Payload) (x : Outcome String)
      → root_valid sha o r account provenance c m e payload x ≡ true
      → (root : String) × (x ≡ value root)
        × (payload ≡ r.payload)
        × (r.generation_root_sha256 ≡ some root)
        × (e.generation_root_sha256 ≡ some root)
  unfolding root_valid
  root_valid-Bound r account provenance c m e payload raised h = absurd (ground arith)
  root_valid-Bound r account provenance c m e payload (value root) h = (
    root,
    refl,
    (payload_eq_iff _ _).0 (ground arith),
    (opt_eq_iff _ _).0 (ground arith),
    (opt_eq_iff _ _).0 (ground arith),
  )

  bound_root-RootBound :
      (r : HeartbeatRecord) (account provenance : String) (c : HeartbeatComplete)
      (m : HeartbeatManifest) (e : Event) (payload : Option Payload)
      → bound_root sha o r account provenance c m e payload ≡ true
      → RootBound r account provenance e
  unfolding bound_root
  bound_root-RootBound r account provenance c m e none h = absurd (ground arith)
  bound_root-RootBound r account provenance c m e (some payload) h =
      elim (Option-cases r.commit_id) [
        | inl f ↦ absurd (ground (arith, f, h))
        | inr (commit_id, f) ↦
            let (root, found, same, own, event) =
              root_valid-Bound r account provenance c m e payload
                (heartbeat_root sha o commit_id payload account provenance
                  r.previous_heartbeat_sha256)
                (ground (arith, f, h)) in
            (
              commit_id,
              root,
              f,
              ap
                    (λ (p : Payload).
                      heartbeat_root sha o commit_id p account provenance
                        r.previous_heartbeat_sha256)
                    (sym same)
                  ∙ found,
              own,
              event,
            )
      ]

  -- What stands behind a generation of version 4.
  abbrev EventFiles : List Line → Directory → HeartbeatRecord → String → String → Type 0
  EventFiles lines f r account provenance =
      (e : Event) × (events : List Event) × (f.account_event ≡ some e)
      × (load_account_events sha.of_event lines ≡ value events)
      × EventBound r events e
      × RootBound r account provenance e

  bound_event-EventFiles :
      (lines : List Line) (f : Directory) (r : HeartbeatRecord) (account provenance : String)
      (c : HeartbeatComplete) (m : HeartbeatManifest) (e : Option Event)
      → f.account_event ≡ e
      → version_of r ≡ 4
      → bound_event sha o lines f r account provenance c m e ≡ true
      → EventFiles lines f r account provenance
  unfolding bound_event
  bound_event-EventFiles lines f r account provenance c m none there four h = absurd (ground arith)
  bound_event-EventFiles lines f r account provenance c m (some e) there four h =
      elim (Outcome-cases (load_account_events sha.of_event lines)) [
        | inl f ↦ absurd (ground (arith, f, h))
        | inr (events, load) ↦
            let newer : (version_of r == 3) ≡ false = ap (λ n. n == 3) four in
            let tests : (event_valid sha o r m events e
                  && ((version_of r == 3)
                      || bound_root sha o r account provenance c m e f.heartbeat_payload))
                ≡ true =
              ap
                (λ x. elim x as (λ _. Bool) [
                  | raised ↦ false
                  | value events ↦
                      event_valid sha o r m events e
                      && ((version_of r == 3)
                          || bound_root sha o r account provenance c m e f.heartbeat_payload)
                ])
                (sym load)
              ∙ h in
            let (event, rest) = both_true _ _ tests in
            (
              e,
              events,
              there,
              load,
              event_valid-EventBound r m events e event,
              bound_root-RootBound r account provenance c m e f.heartbeat_payload
                  (second_true _ _ newer rest),
            )
      ]

  -- All that is known of the generation.
  abbrev pub Generation : List Line → Directory → HeartbeatRecord → Type 0
  Generation lines f r =
      (account provenance : String) × (c : HeartbeatComplete) × FilesBound r f account provenance c
      × EventFiles lines f r account provenance

  manifest-Generation :
      (lines : List Line) (f : Directory) (r artifact : HeartbeatRecord)
      (account provenance : String) (c : HeartbeatComplete) (m : HeartbeatManifest)
      → f.heartbeat ≡ some artifact
      → f.account_state ≡ some account
      → f.runtime_provenance ≡ some provenance
      → f.complete ≡ complete_of c
      → version_of r ≡ 4
      → common_valid sha o r artifact account provenance c m ≡ true
      → bound_event sha o lines f r account provenance c m f.account_event ≡ true
      → Generation lines f r
  unfolding common_valid
  manifest-Generation lines f r artifact account provenance c m a b k l four h g =
      let own : artifact ≡ r = (record_eq_iff artifact r).0 (ground arith) in
      (
        account,
        provenance,
        c,
        (
          a ∙ ap some own,
          b,
          k,
          l,
          ground (arith, h),
          (opt_eq_iff c.commit_id r.commit_id).0 (ground (arith, h)),
          (opt_eq_iff r.account_state_sha256 (some (sha.of_text account))).0 (ground (arith, h)),
          (opt_eq_iff r.runtime_provenance_sha256 (some (sha.of_text provenance))).0
              (ground (arith, h)),
          ground (arith, h),
        ),
        bound_event-EventFiles lines f r account provenance c m f.account_event refl four g,
      )

  files_valid-Generation :
      (lines : List Line) (f : Directory) (r : HeartbeatRecord) (artifact : Option HeartbeatRecord)
      (account provenance : Option String) (complete : HeartbeatCompleteFile)
      → f.heartbeat ≡ artifact
      → f.account_state ≡ account
      → f.runtime_provenance ≡ provenance
      → f.complete ≡ complete
      → version_of r ≡ 4
      → files_valid sha o lines f r artifact account provenance complete ≡ true
      → Generation lines f r
  unfolding files_valid
  files_valid-Generation lines f r none account provenance marker_file a b k l four h =
      absurd (ground arith)
  files_valid-Generation lines f r (some artifact) none provenance marker_file a b k l four h =
      absurd (ground arith)
  files_valid-Generation lines f r (some artifact) (some account) none marker_file a b k l four h =
      absurd (ground arith)
  files_valid-Generation lines f r (some artifact) (some account) (some provenance) no_complete a b
        k l four h =
      absurd (ground arith)
  files_valid-Generation lines f r (some artifact) (some account) (some provenance) torn_complete a
        b k l four h =
      absurd (ground arith)
  files_valid-Generation lines f r (some artifact) (some account) (some provenance) (complete_of c)
        a b k l four h =
      elim (Option-cases c.manifest) [
        | inl f ↦ absurd (ground (arith, f, h))
        | inr (m, there) ↦
            let newer : (version_of r == 2) ≡ false = ap (λ n. n == 2) four in
            let tests : (common_valid sha o r artifact account provenance c m
                  && ((version_of r == 2)
                      || bound_event sha o lines f r account provenance c m f.account_event))
                ≡ true =
              ap
                (λ x. elim x as (λ _. Bool) [
                  | none ↦ false
                  | some m ↦
                      common_valid sha o r artifact account provenance c m
                      && ((version_of r == 2)
                          || bound_event sha o lines f r account provenance c m f.account_event)
                ])
                (sym there)
              ∙ h in
            let (common, rest) = both_true _ _ tests in
            manifest-Generation lines f r artifact account provenance c m a b k l four common
              (second_true _ _ newer rest)
      ]

  -- A row of version 4 whose generation verifies: its directory holds the row itself, the account and the provenance with
  -- the hashes that the row names, and a marker with the row's commit id; its account event is a heartbeat event of the chain
  -- with the row's commit id, hash and account; and the row and the event carry the root of the generation, which covers the
  -- payload, the account and the provenance.
  pub verify_heartbeat_completion-Generation :
      (d : HeartbeatDisk) (r : HeartbeatRecord)
      → verify_heartbeat_completion sha o d r ≡ value true
      → version_of r ≡ 4
      → (f : Directory) × (directory_of sha o d r ≡ value f)
        × (r.record_sha256 ≡ some (record_sha sha o r))
        × Generation d.events f r
  unfolding verify_heartbeat_completion
  verify_heartbeat_completion-Generation d r h four =
      elim (Bool-cases (not (is_hashed (version_of r)) || not (hash_holds sha o r))) [
        | inl bad ↦ absurd (ground (arith, bad, h))
        | inr good ↦
            let own : opt_eq r.record_sha256 (some (record_sha sha o r)) ≡ true = ground arith in
            let h1 : (directory_of sha o d r >>= λ f. value (
                  files_valid sha o d.events f r f.heartbeat f.account_state f.runtime_provenance
                    f.complete))
                ≡ value true =
              ground (arith, good, h) in
            let (f, there, valid) = >>=-eq-value (directory_of sha o d r) _ h1 in
            (
              f,
              there,
              (opt_eq_iff _ _).0 own,
              files_valid-Generation d.events f r f.heartbeat f.account_state f.runtime_provenance
                  f.complete refl refl refl refl four (value-injective valid),
            )
      ]
