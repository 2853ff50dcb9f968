-- ===== src/Exclusion/Invariant.antt =====
-- At most one of the two transactions of futures_fund/reconcile_commit.py and futures_fund/heartbeat.py is pending.
use gpt_market_neutral_crypt.Prelude.{
  ℕ, ◌≡◌, refl, ◌⊎◌, inl, inr, Bool, true, false, String, arith, ap, ◌∙◌, Outcome, Bool-cases,
}
use gpt_market_neutral_crypt.Commit.{
  Canonical, Others, TransactionFile, none_staged, malformed, staged, Disk,
}
use gpt_market_neutral_crypt.Commit.Recovery.{recover_reconcile_transaction}
use gpt_market_neutral_crypt.Commit.Stage.{Sources}
use gpt_market_neutral_crypt.Commit.Stage.Refusal.{stage-refuses}
use gpt_market_neutral_crypt.Heartbeat.{
  HeartbeatTransactionFile, no_transaction, torn_transaction, transaction_of, HeartbeatDisk,
  HeartbeatCanonical, HeartbeatOthers,
}
use gpt_market_neutral_crypt.Heartbeat.Recovery.{recover_heartbeat_transaction}
use gpt_market_neutral_crypt.Heartbeat.Stage.{HeartbeatSources}
use gpt_market_neutral_crypt.Heartbeat.Stage.Refusal.{stage_heartbeat-refuses}
use gpt_market_neutral_crypt.Exclusion.{
  StateDir, reconcile_exists, heartbeat_exists, shared, reconcile_view, heartbeat_view,
  after_reconcile, after_heartbeat, Step, stage_reconcile, recover_reconcile, crash_reconcile,
  stage_heartbeat, recover_heartbeat, crash_heartbeat, Runs, rest, then,
}

-- Not both.
abbrev pub AtMostOne : StateDir → Type 0
AtMostOne d = (reconcile_exists d ≡ false) ⊎ (heartbeat_exists d ≡ false)

-- By the transaction files alone.
exists_by_file :
    (d x : StateDir)
    → x.reconcile.transaction ≡ d.reconcile.transaction
    → reconcile_exists x ≡ reconcile_exists d
unfolding reconcile_exists
exists_by_file d x same =
    ap (λ (f : TransactionFile). elim f as (λ _. Bool) [ none_staged ↦ false | _ ↦ true ]) same

heartbeat_by_file :
    (d x : StateDir)
    → x.heartbeat.transaction ≡ d.heartbeat.transaction
    → heartbeat_exists x ≡ heartbeat_exists d
unfolding heartbeat_exists
heartbeat_by_file d x same =
    ap
      (λ (f : HeartbeatTransactionFile). elim f as (λ _. Bool) [
        | no_transaction ↦ false
        | _ ↦ true
      ])
      same

no_reconcile : (d : StateDir) → reconcile_exists d ≡ false → d.reconcile.transaction ≡ none_staged
unfolding reconcile_exists
no_reconcile d h = go d.reconcile.transaction refl
  where
    go : (f : TransactionFile) → d.reconcile.transaction ≡ f → d.reconcile.transaction ≡ none_staged
    go none_staged there = there
    go malformed there = absurd (ground (arith, there, h))
    go (staged t) there = absurd (ground (arith, there, h))

no_heartbeat :
    (d : StateDir) → heartbeat_exists d ≡ false → d.heartbeat.transaction ≡ no_transaction
unfolding heartbeat_exists
no_heartbeat d h = go d.heartbeat.transaction refl
  where
    go :
        (f : HeartbeatTransactionFile)
        → d.heartbeat.transaction ≡ f
        → d.heartbeat.transaction ≡ no_transaction
    go no_transaction there = there
    go torn_transaction there = absurd (ground (arith, there, h))
    go (transaction_of t) there = absurd (ground (arith, there, h))

module _ (sha : Canonical) (hsha : HeartbeatCanonical) (o : Others) (ho : HeartbeatOthers)
    (s : Sources) (hs : HeartbeatSources) where
  -- What a step may do to the two files: it makes one only where the other is not.
  abbrev Careful : StateDir → StateDir → Type 0
  Careful d x =
      ((heartbeat_exists x ≡ heartbeat_exists d)
        × ((reconcile_exists x ≡ reconcile_exists d)
            ⊎ (heartbeat_exists d ≡ false)
            ⊎ (reconcile_exists d ≡ true)))
      ⊎ ((reconcile_exists x ≡ reconcile_exists d)
          × ((heartbeat_exists x ≡ heartbeat_exists d)
              ⊎ (reconcile_exists d ≡ false)
              ⊎ (heartbeat_exists d ≡ true)))

  Careful-AtMostOne : (d x : StateDir) → Careful d x → AtMostOne d → AtMostOne x
  Careful-AtMostOne d x c one = ground (arith, c, one)

  idle_reconcile :
      (x : Disk) → x.transaction ≡ none_staged → (recover_reconcile_transaction sha o x).1 ≡ x
  unfolding recover_reconcile_transaction
  idle_reconcile x h = ground (arith, h)

  idle_heartbeat :
      (x : HeartbeatDisk)
      → x.transaction ≡ no_transaction
      → (recover_heartbeat_transaction (shared sha hsha o ho s hs) ho x).1 ≡ x
  unfolding recover_heartbeat_transaction
  idle_heartbeat x h = ground (arith, h)

  -- The view of a module has its own transaction file and knows whether the other's is there.
  reconcile_view-pending :
      (d : StateDir) → (reconcile_view sha hsha o ho s hs d).heartbeat_pending ≡ heartbeat_exists d
  unfolding reconcile_view
  reconcile_view-pending d = refl

  reconcile_view-transaction :
      (d : StateDir) → (reconcile_view sha hsha o ho s hs d).transaction ≡ d.reconcile.transaction
  unfolding reconcile_view
  reconcile_view-transaction d = refl

  heartbeat_view-pending :
      (cadence : String) (cycle : ℕ) (d : StateDir)
      → (heartbeat_view sha hsha o ho s hs cadence cycle d).reconcile_pending ≡ reconcile_exists d
  unfolding heartbeat_view
  heartbeat_view-pending cadence cycle d = refl

  heartbeat_view-transaction :
      (cadence : String) (cycle : ℕ) (d : StateDir)
      → (heartbeat_view sha hsha o ho s hs cadence cycle d).transaction ≡ d.heartbeat.transaction
  unfolding heartbeat_view
  heartbeat_view-transaction cadence cycle d = refl

  -- An operation of a module leaves the other's file.
  reconcile-Careful :
      (d : StateDir) (x : Disk)
      → (heartbeat_exists d ≡ true → x.transaction ≡ d.reconcile.transaction)
        ⊎ (reconcile_exists d ≡ false → x.transaction ≡ d.reconcile.transaction)
      → Careful d (after_reconcile sha hsha o ho s hs d x)
  unfolding after_reconcile
  reconcile-Careful d x (inl keeps) = inl (
    heartbeat_by_file d (record d { reconcile = x }) refl,
    elim (Bool-cases (heartbeat_exists d)) [
      | inl there ↦ inl (exists_by_file d (record d { reconcile = x }) (keeps there))
      | inr absent ↦ inr (inl absent)
    ],
  )
  reconcile-Careful d x (inr keeps) = inl (
    heartbeat_by_file d (record d { reconcile = x }) refl,
    elim (Bool-cases (reconcile_exists d)) [
      | inl there ↦ inr (inr there)
      | inr absent ↦ inl (exists_by_file d (record d { reconcile = x }) (keeps absent))
    ],
  )

  heartbeat-Careful :
      (d : StateDir) (x : HeartbeatDisk)
      → (reconcile_exists d ≡ true → x.transaction ≡ d.heartbeat.transaction)
        ⊎ (heartbeat_exists d ≡ false → x.transaction ≡ d.heartbeat.transaction)
      → Careful d (after_heartbeat sha hsha o ho s hs d x)
  unfolding after_heartbeat
  heartbeat-Careful d x keeps =
      let after : StateDir = record {
        reconcile = record d.reconcile { account = x.account; events = x.events };
        heartbeat = x;
      } in
      inr (
        exists_by_file d after refl,
        elim keeps [
          | inl keeps ↦ elim (Bool-cases (reconcile_exists d)) [
            | inl there ↦ inl (heartbeat_by_file d after (keeps there))
            | inr absent ↦ inr (inl absent)
          ]
          | inr keeps ↦ elim (Bool-cases (heartbeat_exists d)) [
            | inl there ↦ inr (inr there)
            | inr absent ↦ inl (heartbeat_by_file d after (keeps absent))
          ]
        ],
      )

  Step-Careful :
      (cadence : String) (cycle : ℕ) (d x : StateDir)
      → Step sha hsha o ho s hs cadence cycle d x
      → Careful d x
  unfolding reconcile_exists heartbeat_exists
  Step-Careful cadence cycle _ _ (stage_reconcile d commit_id p) =
      let view = reconcile_view sha hsha o ho s hs d in
      reconcile-Careful d _ (
        inl (λ h.
          ap (λ (x : Outcome _ × Disk). x.1.transaction)
            (stage-refuses sha o s commit_id p view (reconcile_view-pending d ∙ h))
          ∙ reconcile_view-transaction d))
  Step-Careful cadence cycle _ _ (recover_reconcile d) =
      let view = reconcile_view sha hsha o ho s hs d in
      reconcile-Careful d _ (
        inr (λ h.
          ap (λ (x : Disk). x.transaction)
            (idle_reconcile view (reconcile_view-transaction d ∙ no_reconcile d h))
          ∙ reconcile_view-transaction d))
  Step-Careful cadence cycle _ _ (crash_reconcile d t ws n there) =
      reconcile-Careful d _ (inr (λ h. absurd (ground (arith, no_reconcile d h, there))))
  Step-Careful cadence cycle _ _ (stage_heartbeat d commit_id p) =
      let view = heartbeat_view sha hsha o ho s hs cadence cycle d in
      heartbeat-Careful d _ (
        inl (λ h.
          ap (λ (x : Outcome _ × HeartbeatDisk). x.1.transaction)
            (stage_heartbeat-refuses (shared sha hsha o ho s hs) ho hs commit_id p view
              (heartbeat_view-pending cadence cycle d ∙ h))
          ∙ heartbeat_view-transaction cadence cycle d))
  Step-Careful cadence cycle _ _ (recover_heartbeat d) =
      let view = heartbeat_view sha hsha o ho s hs cadence cycle d in
      heartbeat-Careful d _ (
        inr (λ h.
          ap (λ (x : HeartbeatDisk). x.transaction)
            (idle_heartbeat view (heartbeat_view-transaction cadence cycle d ∙ no_heartbeat d h))
          ∙ heartbeat_view-transaction cadence cycle d))
  Step-Careful cadence cycle _ _ (crash_heartbeat d t r ws n there) =
      heartbeat-Careful d _ (inr (λ h. absurd (ground (arith, no_heartbeat d h, there))))

  -- The two transactions are never pending together: stagings and recoveries of both modules, in any order, with any results
  -- and with crashes behind any write of a recovery, start from a directory with at most one and end in one.
  pub Runs-AtMostOne :
      (cadence : String) (cycle : ℕ) (d x : StateDir)
      → Runs sha hsha o ho s hs cadence cycle d x
      → AtMostOne d
      → AtMostOne x
  Runs-AtMostOne cadence cycle _ _ (rest d) one = one
  Runs-AtMostOne cadence cycle _ _ (then d d1 d2 before step) one =
      Careful-AtMostOne d1 d2 (Step-Careful cadence cycle d1 d2 step)
        (Runs-AtMostOne cadence cycle d d1 before one)
