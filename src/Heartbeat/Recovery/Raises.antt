-- ===== src/Heartbeat/Recovery/Raises.antt =====
-- What a raise of `recover_heartbeat_transaction` of futures_fund/heartbeat.py leaves behind.
use gpt_market_neutral_crypt.Prelude.{
  ℕ, ◌≡◌, refl, ◌⊎◌, inl, inr, Bool, true, false, ◌&&◌, String, arith, sym, ap, ◌∙◌, Bool-cases,
  Outcome, value, raised,
}
use gpt_market_neutral_crypt.Events.{Event}
use gpt_market_neutral_crypt.Ledger.{jsonl_rows}
use gpt_market_neutral_crypt.Heartbeat.{
  HeartbeatRecord, HeartbeatTransaction, HeartbeatTransactionFile, no_transaction, torn_transaction,
  transaction_of, HeartbeatDisk, HeartbeatCanonical, HeartbeatOthers,
}
use gpt_market_neutral_crypt.Heartbeat.Completion.{verify_heartbeat_completion}
use gpt_market_neutral_crypt.Heartbeat.Recovery.{
  HeartbeatResult, sound_heartbeat, ready, account_matches, is_indexed, already_complete,
  lineage_holds, is_intact, closed, replay, settle_transaction, continue_heartbeat,
  recover_heartbeat_transaction,
}
use gpt_market_neutral_crypt.Heartbeat.Writes.{heartbeat_publication, put_all}
use gpt_market_neutral_crypt.Heartbeat.Recovery.Outcomes.{put_all-transaction}

module _ (sha : HeartbeatCanonical) (o : HeartbeatOthers) where
  raised_disk :
      {d d' : HeartbeatDisk}
      → ◌≡◌ {A = Outcome HeartbeatResult × HeartbeatDisk} (raised, d) (raised, d')
      → d' ≡ d
  raised_disk h = sym (ap (λ (x : Outcome HeartbeatResult × HeartbeatDisk). x.1) h)

  -- As the writes of the transaction have left it.
  abbrev Part :
      HeartbeatDisk → HeartbeatTransaction → ℕ → HeartbeatRecord → Event → HeartbeatDisk → Type 0
  Part d t v r e d' =
      (account : String) × (o.reread_account t.account ≡ value account)
      × (lineage_holds sha o d.account t.base_account_sha256 (sha.of_text account) ≡ true)
      × (d' ≡ (put_all sha o r (heartbeat_publication sha o t v r e account) d).1)

  closed_raised :
      (r : HeartbeatRecord) (x : Outcome (Unit {0}) × HeartbeatDisk) (d' : HeartbeatDisk)
      → closed sha o r x ≡ (raised, d')
      → d' ≡ x.1
  unfolding closed
  closed_raised r (raised, d) d' h = raised_disk h
  closed_raised r (value _, d) d' h =
      elim (Bool-cases (
        is_intact sha o (verify_heartbeat_completion sha o d r)
        && account_matches sha o d.account r)) [
          | inl good ↦ absurd (ground arith)
          | inr bad ↦ ground arith
        ]

  replay_raised :
      (d : HeartbeatDisk) (t : HeartbeatTransaction) (v : ℕ) (r : HeartbeatRecord) (e : Event)
      (account : Outcome String) (d' : HeartbeatDisk)
      → o.reread_account t.account ≡ account
      → replay sha o d t v r e account ≡ (raised, d')
      → (d' ≡ d) ⊎ Part d t v r e d'
  unfolding replay
  replay_raised d t v r e raised d' read h = inl (raised_disk h)
  replay_raised d t v r e (value a) d' read h =
      elim (Bool-cases (lineage_holds sha o d.account t.base_account_sha256 (sha.of_text a))) [
        | inr other ↦ inl (ground arith)
        | inl same ↦ inr (
          a,
          read,
          same,
          closed_raised r (put_all sha o r (heartbeat_publication sha o t v r e a) d) d'
              (ground (arith, same, h)),
        )
      ]

  already_complete_raised :
      (d : HeartbeatDisk) (r : HeartbeatRecord) (d' : HeartbeatDisk)
      → already_complete sha o d r ≡ (raised, d')
      → d' ≡ d
  unfolding already_complete
  already_complete_raised d r d' h =
      elim (Bool-cases
        (account_matches sha o d.account r && is_indexed sha o r (jsonl_rows d.rows))) [
          | inl good ↦ absurd (ground arith)
          | inr bad ↦ ground arith
        ]

  settle_transaction_raised :
      (d : HeartbeatDisk) (t : HeartbeatTransaction) (v : ℕ) (r : HeartbeatRecord) (e : Event)
      (x : Outcome Bool) (d' : HeartbeatDisk)
      → settle_transaction sha o d t v r e x ≡ (raised, d')
      → (d' ≡ d) ⊎ ((x ≡ value false) × Part d t v r e d')
  unfolding settle_transaction
  settle_transaction_raised d t v r e raised d' h = inl (raised_disk h)
  settle_transaction_raised d t v r e (value true) d' h = inl (already_complete_raised d r d' h)
  settle_transaction_raised d t v r e (value false) d' h =
      elim (replay_raised d t v r e (o.reread_account t.account) d' refl h) [
        | inl same ↦ inl same
        | inr part ↦ inr (refl, part)
      ]

  -- A recovery that raises has written nothing, or the first writes of a transaction that passed every test.
  abbrev pub Interrupted : HeartbeatDisk → HeartbeatDisk → Type 0
  Interrupted d d' =
      (d' ≡ d)
      ⊎ ((t : HeartbeatTransaction) × (v : ℕ) × (r : HeartbeatRecord) × (e : Event) × (d.transaction
            ≡ transaction_of t)
          × (sound_heartbeat sha o t ≡ value (v, r, e))
          × (ready sha o d r e ≡ value false)
          × Part d t v r e d')

  continue_heartbeat_raised :
      (d : HeartbeatDisk) (t : HeartbeatTransaction) (x : Outcome (ℕ × HeartbeatRecord × Event))
      (d' : HeartbeatDisk)
      → d.transaction ≡ transaction_of t
      → sound_heartbeat sha o t ≡ x
      → continue_heartbeat sha o d t x ≡ (raised, d')
      → Interrupted d d'
  unfolding continue_heartbeat
  continue_heartbeat_raised d t raised d' there s h = inl (raised_disk h)
  continue_heartbeat_raised d t (value (v, r, e)) d' there s h =
      elim (settle_transaction_raised d t v r e (ready sha o d r e) d' h) [
        | inl same ↦ inl same
        | inr (tested, part) ↦ inr (t, v, r, e, there, s, tested, part)
      ]

  recover_heartbeat-Interrupted :
      (d d' : HeartbeatDisk)
      → recover_heartbeat_transaction sha o d ≡ (raised, d')
      → Interrupted d d'
  unfolding recover_heartbeat_transaction
  recover_heartbeat-Interrupted d d' h = go d.transaction refl
    where
      go : (f : HeartbeatTransactionFile) → d.transaction ≡ f → Interrupted d d'
      go no_transaction there = absurd (ground arith)
      go torn_transaction there = inl (ground arith)
      go (transaction_of t) there = elim (Bool-cases d.reconcile_pending) [
        | inl both ↦ inl (ground arith)
        | inr quiet ↦
            continue_heartbeat_raised d t (sound_heartbeat sha o t) d' there refl (ground arith)
      ]

  -- A heartbeat recovery that raises keeps the transaction for the next attempt. It has written nothing, unless the transaction
  -- passed every test on itself and on the disk, the account among them; the disk is then as the writes left it.
  pub recover_heartbeat_raised :
      (d d' : HeartbeatDisk)
      → recover_heartbeat_transaction sha o d ≡ (raised, d')
      → (d'.transaction ≡ d.transaction) × Interrupted d d'
  recover_heartbeat_raised d d' h =
      let left = recover_heartbeat-Interrupted d d' h in
      (
        elim left [
          | inl same ↦ ap (λ (x : HeartbeatDisk). x.transaction) same
          | inr (t, v, r, e, there, s, tested, (account, _, _, written)) ↦
              ap (λ (x : HeartbeatDisk). x.transaction) written
              ∙ put_all-transaction sha o r (heartbeat_publication sha o t v r e account) d
        ],
        left,
      )
