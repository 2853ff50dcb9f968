-- ===== src/Commit/Recovery/Raises.antt =====
-- What a raise of `recover_reconcile_transaction` of futures_fund/reconcile_commit.py leaves behind.
use gpt_market_neutral_crypt.Prelude.{
  ℕ, ◌≡◌, refl, true, not, ◌&&◌, ◌||◌, some, List, [], ◌∷◌, String, arith, sym, ap, ◌∙◌, ◌⊎◌, inl,
  inr, Bool-cases, Outcome, value, raised, Outcome-cases, opt_eq, ◌==◌,
}
use gpt_market_neutral_crypt.Events.{Event}
use gpt_market_neutral_crypt.Commit.{
  Transaction, Canonical, Others, Complete, CompleteFile, absent, unreadable, present,
  TransactionFile, none_staged, malformed, staged, Disk,
}
use gpt_market_neutral_crypt.Commit.Completion.{cycle_is_complete, verify_completion_manifest}
use gpt_market_neutral_crypt.Commit.Recovery.{
  Result, plan, publish, finish, marked, resume, admitted, continue, recover_reconcile_transaction,
  account_is,
}
use gpt_market_neutral_crypt.Commit.Writes.{
  Write, save_account, save_output, save_equity, save_ledger, save_event, save_complete, stop,
  write, write_all,
}

module _ (sha : Canonical) (o : Others) where
  -- A write leaves the staged transaction, even a write that raises.
  write-transaction :
      (cadence : String) (cycle : ℕ) (w : Write) (d : Disk)
      → (write sha o cadence cycle w d).1.transaction ≡ d.transaction
  unfolding write
  write-transaction cadence cycle (save_account a) d = refl
  write-transaction cadence cycle (save_output name v) d = ground arith
  write-transaction cadence cycle (save_equity r) d = ground arith
  write-transaction cadence cycle (save_ledger r) d = ground arith
  write-transaction cadence cycle (save_event e) d = refl
  write-transaction cadence cycle (save_complete c) d = refl
  write-transaction cadence cycle stop d = refl

  write_all-transaction :
      (cadence : String) (cycle : ℕ) (ws : List Write) (d : Disk)
      → (write_all sha o cadence cycle ws d).1.transaction ≡ d.transaction
  unfolding write_all
  write_all-transaction cadence cycle [] d = refl
  write_all-transaction cadence cycle (w ∷ ws) d =
      let first = write-transaction cadence cycle w d in
      let (r, d1) = write sha o cadence cycle w d in
      elim (Outcome-cases r) [
        | inl f ↦ ground (arith, first)
        | inr (u, f) ↦ ground (arith, first, write_all-transaction cadence cycle ws d1)
      ]

  -- The disk of a raise: as before, or as the writes of an admitted transaction have left it.
  abbrev Left : Disk → Transaction → Outcome (List Write) → Disk → Type 0
  Left d t ws d' =
      (d' ≡ d)
      ⊎ ((xs : List Write) × (ws ≡ value xs) × (d' ≡ (write_all sha o t.cadence t.cycle xs d).1))

  publish_raised :
      (d : Disk) (t : Transaction) (ws : Outcome (List Write)) (d' : Disk)
      → publish sha o d t ws ≡ (raised, d')
      → Left d t ws d'
  unfolding publish finish
  publish_raised d t raised d' h = inl (sym (ap (λ (x : Outcome Result × Disk). x.1) h))
  publish_raised d t (value ws) d' h = inr (ws, refl, go (write_all sha o t.cadence t.cycle ws d) h)
    where
      go : (r : Outcome (Unit {0}) × Disk) → finish sha o t r ≡ (raised, d') → d' ≡ r.1
      go (raised, d1) h = sym (ap (λ (x : Outcome Result × Disk). x.1) h)
      go (value _, d1) h =
          elim (Bool-cases
            (cycle_is_complete sha o d1 t.cycle t.cadence true && account_is sha o d1 t)) [
              | inl good ↦ absurd (ground arith)
              | inr bad ↦ ground arith
            ]

  marked_raised :
      (d : Disk) (t : Transaction) (e : Event) (v : ℕ) (c : Complete) (d' : Disk)
      → marked sha o d t e v c ≡ (raised, d')
      → Left d t (plan sha o d t e v) d'
  unfolding marked
  marked_raised d t e v c d' h =
      elim (Bool-cases (not (opt_eq c.commit_id (some t.commit_id)) || not (c.cycle == t.cycle))) [
        | inl bad ↦ inl (ground arith)
        | inr good ↦
            elim (Bool-cases
              (c.paper_only && verify_completion_manifest sha o d t.cycle c t.cadence)) [
                | inr damaged ↦ publish_raised d t (plan sha o d t e v) d' (ground arith)
                | inl intact ↦ elim (Bool-cases (account_is sha o d t)) [
                  | inl same ↦ absurd (ground arith)
                  | inr other ↦ inl (ground arith)
                ]
              ]
      ]

  resume_raised :
      (d : Disk) (t : Transaction) (e : Event) (v : ℕ) (d' : Disk)
      → resume sha o d t e v ≡ (raised, d')
      → Left d t (plan sha o d t e v) d'
  unfolding resume
  resume_raised d t e v d' h = go d.complete refl
    where
      go : (f : CompleteFile) → d.complete ≡ f → Left d t (plan sha o d t e v) d'
      go absent there = publish_raised d t (plan sha o d t e v) d' (ground arith)
      go unreadable there = inl (ground arith)
      go (present c) there = marked_raised d t e v c d' (ground arith)

  -- What a recovery that raises has done: nothing, or the first writes of a staged transaction that was admitted.
  abbrev pub Untouched : Disk → Disk → Type 0
  Untouched d d' =
      (d' ≡ d)
      ⊎ ((t : Transaction) × (e : Event) × (v : ℕ) × (ws : List Write) × (d.transaction ≡ staged t)
          × (admitted sha o d t ≡ value (e, v))
          × (plan sha o d t e v ≡ value ws)
          × (d' ≡ (write_all sha o t.cadence t.cycle ws d).1))

  continue_raised :
      (d : Disk) (t : Transaction) (a : Outcome (Event × ℕ)) (d' : Disk)
      → d.transaction ≡ staged t
      → admitted sha o d t ≡ a
      → continue sha o d t a ≡ (raised, d')
      → Untouched d d'
  unfolding continue
  continue_raised d t raised d' st adm h = inl (sym (ap (λ (x : Outcome Result × Disk). x.1) h))
  continue_raised d t (value (e, v)) d' st adm h = elim (resume_raised d t e v d' h) [
    | inl same ↦ inl same
    | inr (ws, planned, left) ↦ inr (t, e, v, ws, st, adm, planned, left)
  ]

  recover-Untouched :
      (d d' : Disk) → recover_reconcile_transaction sha o d ≡ (raised, d') → Untouched d d'
  unfolding recover_reconcile_transaction
  recover-Untouched d d' h = go d.transaction refl
    where
      go : (f : TransactionFile) → d.transaction ≡ f → Untouched d d'
      go none_staged there = absurd (ground arith)
      go malformed there = inl (ground arith)
      go (staged t) there = elim (Bool-cases d.heartbeat_pending) [
        | inl both ↦ inl (ground arith)
        | inr quiet ↦ continue_raised d t (admitted sha o d t) d' there refl (ground arith)
      ]

  -- A recovery that raises keeps the transaction file, for the next attempt. It has written nothing, unless the
  -- transaction was admitted and all tests in front of the first write passed; the disk is then as the writes left it.
  pub recover_raised :
      (d d' : Disk)
      → recover_reconcile_transaction sha o d ≡ (raised, d')
      → (d'.transaction ≡ d.transaction) × Untouched d d'
  recover_raised d d' h =
      let left = recover-Untouched d d' h in
      (
        elim left [
          | inl same ↦ ap (λ (x : Disk). x.transaction) same
          | inr (t, e, v, ws, st, adm, planned, written) ↦
              ap (λ (x : Disk). x.transaction) written
              ∙ write_all-transaction t.cadence t.cycle ws d
        ],
        left,
      )
