-- ===== src/Heartbeat/Recovery/Outcomes.antt =====
-- How `recover_heartbeat_transaction` of futures_fund/heartbeat.py ends.
use gpt_market_neutral_crypt.Prelude.{
  ℕ, ◌≡◌, refl, ◌⊎◌, inl, inr, Bool, true, false, ◌&&◌, Option, some, List, [], ◌∷◌, String, arith,
  sym, ap, ◌∙◌, All, Bool-cases, Outcome, value, raised, >>=-eq-value,
}
use gpt_market_neutral_crypt.Ledger.{jsonl_rows}
use gpt_market_neutral_crypt.Events.{Event}
use gpt_market_neutral_crypt.Events.References.{verify_account_event_references}
use gpt_market_neutral_crypt.Heartbeat.{
  HeartbeatRecord, HeartbeatTransaction, HeartbeatTransactionFile, no_transaction, torn_transaction,
  transaction_of, HeartbeatDisk, HeartbeatCanonical, HeartbeatOthers,
}
use gpt_market_neutral_crypt.Heartbeat.Completion.{directory_of, verify_heartbeat_completion}
use gpt_market_neutral_crypt.Heartbeat.History.{
  verify_heartbeat_history, append_heartbeat, store_rows,
}
use gpt_market_neutral_crypt.Heartbeat.Recovery.{
  HeartbeatResult, replayed, sound_heartbeat, marker_agrees, ready, close, account_matches,
  is_indexed, already_complete, lineage_holds, is_intact, closed, replay, settle_transaction,
  continue_heartbeat, recover_heartbeat_transaction,
}
use gpt_market_neutral_crypt.Heartbeat.Writes.{
  HeartbeatWrite, put_account, put_state, put_provenance, put_heartbeat, put_event, put_payload,
  index_heartbeat, chain_event, put_complete, heartbeat_generations, heartbeat_publication,
  in_named, in_directory, put, put_all,
}
use gpt_market_neutral_crypt.Heartbeat.Recovery.Invariants.{put_all_invariant}

module _ (sha : HeartbeatCanonical) (o : HeartbeatOthers) where
  append_heartbeat-transaction :
      (d : HeartbeatDisk) (x : HeartbeatRecord) (pending : Bool)
      → (append_heartbeat sha o d x pending).1.transaction ≡ d.transaction
  unfolding append_heartbeat store_rows
  append_heartbeat-transaction d x pending = ground arith

  put-transaction :
      (r : HeartbeatRecord) (w : HeartbeatWrite) (d : HeartbeatDisk)
      → (put sha o r w d).1.transaction ≡ d.transaction
  unfolding put in_directory in_named
  put-transaction r (put_account a) d = refl
  put-transaction r (put_state a) d = ground arith
  put-transaction r (put_provenance a) d = ground arith
  put-transaction r (put_heartbeat a) d = ground arith
  put-transaction r (put_event a) d = ground arith
  put-transaction r (put_payload a) d = ground arith
  put-transaction r (index_heartbeat x) d = append_heartbeat-transaction d x true
  put-transaction r (chain_event e) d = refl
  put-transaction r (put_complete c) d = ground arith

  pub put_all-transaction :
      (r : HeartbeatRecord) (ws : List HeartbeatWrite) (d : HeartbeatDisk)
      → (put_all sha o r ws d).1.transaction ≡ d.transaction
  put_all-transaction r ws d =
      put_all_invariant sha o (λ x. x.transaction ≡ d.transaction) (λ w. Unit) r
        (λ w x _ h. put-transaction r w x ∙ h) ws (any ws) d refl
    where
      any : (ws : List HeartbeatWrite) → All (λ (w : HeartbeatWrite). Unit {0}) ws
      any [] = tt
      any (w ∷ ws) = (tt, any ws)

  -- What stands behind a success: the generation verifies, and the account is the row's. A generation that was there already
  -- has left the disk as it was, with the row in the ledger.
  abbrev IsReplayed : HeartbeatDisk → HeartbeatRecord → Bool → HeartbeatDisk → Type 0
  IsReplayed d r again d0 =
      (verify_heartbeat_completion sha o d0 r ≡ value true)
      × (account_matches sha o d0.account r ≡ true)
      × ((again ≡ false) ⊎ ((d0 ≡ d) × (is_indexed sha o r (jsonl_rows d.rows) ≡ true)))

  abbrev Ends : HeartbeatDisk → HeartbeatRecord → Option String → Bool → HeartbeatDisk → Type 0
  Ends d r ts again d' =
      (ts ≡ r.payload.ts)
      × ((d0 : HeartbeatDisk) × (d' ≡ record d0 { transaction = no_transaction })
          × IsReplayed d r again d0)

  result_parts :
      (a b : Option String) (x y : Bool) (d d' : HeartbeatDisk)
      → ◌≡◌ {A = Outcome HeartbeatResult × HeartbeatDisk}
          (value (replayed a x), d)
          (value (replayed b y), d')
      → (b ≡ a) × (y ≡ x) × (d' ≡ d)
  result_parts a b x y d d' h = (
    ground (arith, h),
    ground (arith, h),
    sym (ap (λ (x : Outcome HeartbeatResult × HeartbeatDisk). x.1) h),
  )

  intact_true : (m : Outcome Bool) → is_intact sha o m ≡ true → m ≡ value true
  intact_true raised h = absurd (ground arith)
  intact_true (value b) h = ap value h

  closed-Ends :
      (d : HeartbeatDisk) (r : HeartbeatRecord) (x : Outcome (Unit {0}) × HeartbeatDisk)
      (ts : Option String) (again : Bool) (d' : HeartbeatDisk)
      → closed sha o r x ≡ (value (replayed ts again), d')
      → Ends d r ts again d'
  unfolding closed
  closed-Ends d r (raised, d0) ts again d' h = absurd (ground arith)
  closed-Ends d r (value _, d0) ts again d' h =
      elim (Bool-cases (
        is_intact sha o (verify_heartbeat_completion sha o d0 r)
        && account_matches sha o d0.account r)) [
          | inr bad ↦ absurd (ground arith)
          | inl good ↦
              let intact : verify_heartbeat_completion sha o d0 r ≡ value true =
                intact_true _ (ground arith) in
              let same : account_matches sha o d0.account r ≡ true = ground arith in
              let (a, b, c) =
                result_parts r.payload.ts ts false again (close sha o d0) d'
                  (ground (arith, good, h)) in
              (a, (d0, c, (intact, same, inl b)))
        ]

  replay-Ends :
      (d : HeartbeatDisk) (t : HeartbeatTransaction) (v : ℕ) (r : HeartbeatRecord) (e : Event)
      (account : Outcome String) (ts : Option String) (again : Bool) (d' : HeartbeatDisk)
      → replay sha o d t v r e account ≡ (value (replayed ts again), d')
      → Ends d r ts again d'
  unfolding replay
  replay-Ends d t v r e raised ts again d' h = absurd (ground arith)
  replay-Ends d t v r e (value a) ts again d' h =
      elim (Bool-cases (lineage_holds sha o d.account t.base_account_sha256 (sha.of_text a))) [
        | inl same ↦
            closed-Ends d r (put_all sha o r (heartbeat_publication sha o t v r e a) d) ts again d'
              (ground (arith, same, h))
        | inr other ↦ absurd (ground arith)
      ]

  already_complete-Ends :
      (d : HeartbeatDisk) (r : HeartbeatRecord) (ts : Option String) (again : Bool)
      (d' : HeartbeatDisk)
      → verify_heartbeat_completion sha o d r ≡ value true
      → already_complete sha o d r ≡ (value (replayed ts again), d')
      → Ends d r ts again d'
  unfolding already_complete
  already_complete-Ends d r ts again d' intact h =
      elim (Bool-cases
        (account_matches sha o d.account r && is_indexed sha o r (jsonl_rows d.rows))) [
          | inr bad ↦ absurd (ground arith)
          | inl good ↦
              let same : account_matches sha o d.account r ≡ true = ground arith in
              let indexed : is_indexed sha o r (jsonl_rows d.rows) ≡ true = ground arith in
              let (a, _, c) =
                result_parts r.payload.ts ts true again (close sha o d) d'
                  (ground (arith, good, h)) in
              (a, (d, c, (intact, same, inr (refl, indexed))))
        ]

  ready-intact :
      (d : HeartbeatDisk) (r : HeartbeatRecord) (e : Event) (b : Bool)
      → ready sha o d r e ≡ value b
      → verify_heartbeat_completion sha o d r ≡ value b
  unfolding ready
  ready-intact d r e b h =
      let (_, _, h1) = >>=-eq-value (verify_heartbeat_history sha o d (some r)) _ h in
      let (_, _, h2) =
        >>=-eq-value
          (verify_account_event_references sha.of_event (heartbeat_generations sha o d) d.events
            (some e))
          _ h1 in
      let (x, verified, h3) = >>=-eq-value (verify_heartbeat_completion sha o d r) _ h2 in
      let (f, _, h4) = >>=-eq-value (directory_of sha o d r) _ h3 in
      let (_, _, h5) = >>=-eq-value (marker_agrees sha o r f.complete) _ h4 in verified ∙ h5

  settle_transaction-Ends :
      (d : HeartbeatDisk) (t : HeartbeatTransaction) (v : ℕ) (r : HeartbeatRecord) (e : Event)
      (x : Outcome Bool) (ts : Option String) (again : Bool) (d' : HeartbeatDisk)
      → ready sha o d r e ≡ x
      → settle_transaction sha o d t v r e x ≡ (value (replayed ts again), d')
      → Ends d r ts again d'
  unfolding settle_transaction
  settle_transaction-Ends d t v r e raised ts again d' tested h = absurd (ground arith)
  settle_transaction-Ends d t v r e (value true) ts again d' tested h =
      already_complete-Ends d r ts again d' (ready-intact d r e true tested) h
  settle_transaction-Ends d t v r e (value false) ts again d' tested h =
      replay-Ends d t v r e (o.reread_account t.account) ts again d' h

  -- What a recovery that reports success has found and has left.
  abbrev pub Closed : HeartbeatDisk → Option String → Bool → HeartbeatDisk → Type 0
  Closed d ts again d' =
      (t : HeartbeatTransaction) × (v : ℕ) × (r : HeartbeatRecord) × (e : Event) × (d.transaction
        ≡ transaction_of t)
      × (d.reconcile_pending ≡ false)
      × (sound_heartbeat sha o t ≡ value (v, r, e))
      × Ends d r ts again d'

  continue_heartbeat-Closed :
      (d : HeartbeatDisk) (t : HeartbeatTransaction) (x : Outcome (ℕ × HeartbeatRecord × Event))
      (ts : Option String) (again : Bool) (d' : HeartbeatDisk)
      → d.transaction ≡ transaction_of t
      → d.reconcile_pending ≡ false
      → sound_heartbeat sha o t ≡ x
      → continue_heartbeat sha o d t x ≡ (value (replayed ts again), d')
      → Closed d ts again d'
  unfolding continue_heartbeat
  continue_heartbeat-Closed d t raised ts again d' there quiet s h = absurd (ground arith)
  continue_heartbeat-Closed d t (value (v, r, e)) ts again d' there quiet s h = (
    t,
    v,
    r,
    e,
    there,
    quiet,
    s,
    settle_transaction-Ends d t v r e (ready sha o d r e) ts again d' refl h,
  )

  -- A heartbeat recovery that reports success has closed the transaction that was there, which passes its own tests, with no
  -- reconcile pending. The generation of its row verifies and the account on disk has the row's hash; a generation that was
  -- complete already has left everything but the transaction as it was, with the row in the ledger.
  pub recover_heartbeat-Closed :
      (d d' : HeartbeatDisk) (ts : Option String) (again : Bool)
      → recover_heartbeat_transaction sha o d ≡ (value (replayed ts again), d')
      → Closed d ts again d'
  unfolding recover_heartbeat_transaction
  recover_heartbeat-Closed d d' ts again h = go d.transaction refl
    where
      go : (f : HeartbeatTransactionFile) → d.transaction ≡ f → Closed d ts again d'
      go no_transaction there = absurd (ground arith)
      go torn_transaction there = absurd (ground arith)
      go (transaction_of t) there = elim (Bool-cases d.reconcile_pending) [
        | inl both ↦ absurd (ground arith)
        | inr quiet ↦
            continue_heartbeat-Closed d t (sound_heartbeat sha o t) ts again d' there quiet refl
              (ground arith)
      ]
