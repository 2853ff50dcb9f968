-- ===== src/Heartbeat/Recovery/Marker.antt =====
-- The completion marker of futures_fund/heartbeat.py is written last: no interrupted recovery leaves a generation that
-- verifies.
use gpt_market_neutral_crypt.Prelude.{
  ℕ, ◌<◌, ◌≡◌, refl, inl, inr, Bool, true, false, not, ◌||◌, Option, none, some, List, [], ◌∷◌,
  ◌++◌, String, arith, ap, ◌∙◌, subst, All, All-take, take, take-append, length, Outcome, value,
  raised, value-injective, lookup, lookup-assign_self, Bool-cases,
}
use gpt_market_neutral_crypt.Events.{Event}
use gpt_market_neutral_crypt.Heartbeat.{
  Payload, HeartbeatRecord, no_complete, Directory, HeartbeatTransaction, HeartbeatDisk,
  HeartbeatCanonical, HeartbeatOthers,
}
use gpt_market_neutral_crypt.Heartbeat.Records.{record_identity, is_hashed, version_of}
use gpt_market_neutral_crypt.Heartbeat.Completion.{
  name_of, directory_at, directory_named, directory_of, files_valid, hash_holds,
  verify_heartbeat_completion,
}
use gpt_market_neutral_crypt.Heartbeat.History.{append_heartbeat, store_rows, appended_rows}
use gpt_market_neutral_crypt.Heartbeat.Writes.{
  HeartbeatWrite, put_account, put_state, put_provenance, put_heartbeat, put_event, put_payload,
  index_heartbeat, chain_event, put_complete, payload_write, payload_of, heartbeat_completion,
  heartbeat_publication, in_named, in_directory, put, put_all,
}
use gpt_market_neutral_crypt.Heartbeat.Recovery.Invariants.{put_all_invariant}

module _ (sha : HeartbeatCanonical) (o : HeartbeatOthers) where
  -- Any write but that of the marker.
  abbrev Unmarked : HeartbeatWrite → Type 0
  Unmarked (put_complete c) = ⊥
  Unmarked w = Unit

  -- The row's generation has no completion marker.
  abbrev pub NoMarkerYet : HeartbeatRecord → HeartbeatDisk → Type 0
  NoMarkerYet r d =
      (f : Directory) × (directory_of sha o d r ≡ value f) × (f.complete ≡ no_complete)

  in_named-NoMarkerYet :
      (m : Outcome (String × String)) (change : Directory → Directory) (d : HeartbeatDisk)
      → ((f : Directory) → (change f).complete ≡ f.complete)
      → (f : Directory) → directory_named sha o d.directories m ≡ value f
      → f.complete ≡ no_complete
      → (f' : Directory) × (directory_named sha o (in_named sha o d change m).1.directories m
          ≡ value f')
        × (f'.complete ≡ no_complete)
  unfolding in_named directory_named directory_at
  in_named-NoMarkerYet raised change d keeps f there clear = absurd (ground arith)
  in_named-NoMarkerYet (value id) change d keeps f there clear =
      let name = name_of sha o id in
      let f' = change (directory_at sha o (lookup name d.directories)) in
      let same = value-injective there in
      (
        f',
        ap (λ (x : Option Directory). value (directory_at sha o x))
            (lookup-assign_self name f' d.directories),
        keeps _ ∙ ap (λ (x : Directory). x.complete) same ∙ clear,
      )

  in_directory-NoMarkerYet :
      (r : HeartbeatRecord) (change : Directory → Directory) (d : HeartbeatDisk)
      → ((f : Directory) → (change f).complete ≡ f.complete)
      → NoMarkerYet r d
      → NoMarkerYet r (in_directory sha o d r change).1
  unfolding in_directory directory_of
  in_directory-NoMarkerYet r change d keeps (f, there, clear) =
      in_named-NoMarkerYet (record_identity r) change d keeps f there clear

  append_heartbeat-NoMarkerYet :
      (r x : HeartbeatRecord) (d : HeartbeatDisk)
      → NoMarkerYet r d
      → NoMarkerYet r (append_heartbeat sha o d x true).1
  unfolding append_heartbeat store_rows directory_of
  append_heartbeat-NoMarkerYet r x d h = go (appended_rows sha o d x (some x))
    where
      go : (m : Outcome (Option (List HeartbeatRecord))) → NoMarkerYet r (store_rows sha o d m).1
      go raised = h
      go (value none) = h
      go (value (some rows)) = h

  put-NoMarkerYet :
      (r : HeartbeatRecord) (w : HeartbeatWrite) (d : HeartbeatDisk)
      → Unmarked w
      → NoMarkerYet r d
      → NoMarkerYet r (put sha o r w d).1
  unfolding put directory_of
  put-NoMarkerYet r (put_account a) d u h = h
  put-NoMarkerYet r (put_state a) d u h =
      in_directory-NoMarkerYet r (λ f. record f { account_state = some a }) d (λ f. refl) h
  put-NoMarkerYet r (put_provenance a) d u h =
      in_directory-NoMarkerYet r (λ f. record f { runtime_provenance = some a }) d (λ f. refl) h
  put-NoMarkerYet r (put_heartbeat a) d u h =
      in_directory-NoMarkerYet r (λ f. record f { heartbeat = some a }) d (λ f. refl) h
  put-NoMarkerYet r (put_event a) d u h =
      in_directory-NoMarkerYet r (λ f. record f { account_event = some a }) d (λ f. refl) h
  put-NoMarkerYet r (put_payload a) d u h =
      in_directory-NoMarkerYet r (λ f. record f { heartbeat_payload = some a }) d (λ f. refl) h
  put-NoMarkerYet r (index_heartbeat x) d u h = append_heartbeat-NoMarkerYet r x d h
  put-NoMarkerYet r (chain_event e) d u h = h
  put-NoMarkerYet r (put_complete c) d u h = absurd u

  pub no_marker-fails :
      (r : HeartbeatRecord) (d : HeartbeatDisk)
      → NoMarkerYet r d
      → verify_heartbeat_completion sha o d r ≡ value false
  unfolding verify_heartbeat_completion files_valid
  no_marker-fails r d (f, there, clear) =
      elim (Bool-cases (not (is_hashed (version_of r)) || not (hash_holds sha o r))) [
        | inl bad ↦ rw bad refl
        | inr good ↦ rw (good, there, clear) (go f f.heartbeat f.account_state f.runtime_provenance)
      ]
    where
      go :
          (f : Directory) (a : Option HeartbeatRecord) (b c : Option String)
          → ◌≡◌ {A = Outcome Bool}
              (value (files_valid sha o d.events f r a b c no_complete))
              (value false)
      go f none b c = refl
      go f (some a) none c = refl
      go f (some a) (some b) none = refl
      go f (some a) (some b) (some c) = refl

  -- The writes in front of the marker.
  abbrev unmarked_writes :
      HeartbeatTransaction → ℕ → HeartbeatRecord → Event → String → List HeartbeatWrite
  unmarked_writes t v r e account =
      put_account account
      ∷ put_state t.account
      ∷ put_provenance t.runtime_provenance
      ∷ put_heartbeat r
      ∷ put_event e
      ∷ (payload_write sha o (payload_of sha o t v) ++ index_heartbeat r ∷ chain_event e ∷ [])

  publication-marker :
      (t : HeartbeatTransaction) (v : ℕ) (r : HeartbeatRecord) (e : Event) (account : String)
      → heartbeat_publication sha o t v r e account
        ≡ unmarked_writes t v r e account
          ++ put_complete (heartbeat_completion sha o t v r e (payload_of sha o t v)) ∷ []
  unfolding heartbeat_publication payload_write
  publication-marker t v r e account = go (payload_of sha o t v)
    where
      go :
          (p : Option Payload)
          → ◌≡◌ {A = List HeartbeatWrite}
              (put_account account
                ∷ put_state t.account
                ∷ put_provenance t.runtime_provenance
                ∷ put_heartbeat r
                ∷ put_event e
                ∷ (payload_write sha o p
                    ++ index_heartbeat r
                      ∷ chain_event e
                      ∷ put_complete (heartbeat_completion sha o t v r e p)
                      ∷ []))
              ((put_account account
                  ∷ put_state t.account
                  ∷ put_provenance t.runtime_provenance
                  ∷ put_heartbeat r
                  ∷ put_event e
                  ∷ (payload_write sha o p ++ index_heartbeat r ∷ chain_event e ∷ []))
                ++ put_complete (heartbeat_completion sha o t v r e p) ∷ [])
      go none = refl
      go (some p) = refl

  unmarked_writes-All :
      (t : HeartbeatTransaction) (v : ℕ) (r : HeartbeatRecord) (e : Event) (account : String)
      → All Unmarked (unmarked_writes t v r e account)
  unfolding payload_write
  unmarked_writes-All t v r e account = (tt, (tt, (tt, (tt, (tt, go (payload_of sha o t v))))))
    where
      go :
          (p : Option Payload)
          → All Unmarked (payload_write sha o p ++ index_heartbeat r ∷ chain_event e ∷ [])
      go none = (tt, (tt, tt))
      go (some p) = (tt, (tt, (tt, tt)))

  -- A crash in front of the last write of a recovery: the row's generation does not verify, where it has had no completion
  -- marker before.
  pub put_all-incomplete :
      (t : HeartbeatTransaction) (v : ℕ) (r : HeartbeatRecord) (e : Event) (account : String)
      (d : HeartbeatDisk) (n : ℕ)
      → NoMarkerYet r d
      → n < length (heartbeat_publication sha o t v r e account)
      → verify_heartbeat_completion sha o
          (put_all sha o r (take n (heartbeat_publication sha o t v r e account)) d).1
          r
        ≡ value false
  put_all-incomplete t v r e account d n clear short =
      let split = publication-marker t v r e account in
      let marker = put_complete (heartbeat_completion sha o t v r e (payload_of sha o t v)) in
      let first : take n (heartbeat_publication sha o t v r e account)
          ≡ take n (unmarked_writes t v r e account) =
        ap (take n) split
        ∙ take-append n (unmarked_writes t v r e account) marker
            (subst (λ (x : List HeartbeatWrite). n < length x) split short) in
      rw first (
        no_marker-fails r _ (
          put_all_invariant sha o (NoMarkerYet r) Unmarked r (put-NoMarkerYet r)
            (take n (unmarked_writes t v r e account))
            (All-take Unmarked n _ (unmarked_writes-All t v r e account)) d clear))
