-- ===== src/Commit/Stage/Refusal.antt =====
-- `stage_reconcile_transaction` of futures_fund/reconcile_commit.py while a heartbeat transaction is pending.
use gpt_market_neutral_crypt.Prelude.{◌≡◌, refl, true, String, arith, Outcome, value, raised}
use gpt_market_neutral_crypt.Commit.{
  Canonical, Others, TransactionFile, none_staged, malformed, staged, Disk,
}
use gpt_market_neutral_crypt.Commit.Stage.{
  Proposal, Sources, expectation, stage_unlocked, staged_under, stage_reconcile_transaction,
}

module _ (sha : Canonical) (o : Others) (s : Sources) where
  stage_unlocked-refuses :
      (commit_id : String) (p : Proposal) (directive : String) (d : Disk)
      → d.heartbeat_pending ≡ true
      → stage_unlocked sha o s commit_id p directive d ≡ (raised, d)
  unfolding stage_unlocked
  stage_unlocked-refuses commit_id p directive d h = go d.transaction refl
    where
      go :
          (f : TransactionFile)
          → d.transaction ≡ f
          → stage_unlocked sha o s commit_id p directive d ≡ (raised, d)
      go none_staged there = ground (arith, there, h)
      go malformed there = ground (arith, there)
      go (staged t) there = ground (arith, there)

  -- It raises and writes nothing.
  pub stage-refuses :
      (commit_id : String) (p : Proposal) (d : Disk)
      → d.heartbeat_pending ≡ true
      → stage_reconcile_transaction sha o s commit_id p d ≡ (raised, d)
  unfolding stage_reconcile_transaction staged_under
  stage-refuses commit_id p d h = go (expectation sha o s p d)
    where
      go : (x : Outcome String) → staged_under sha o s commit_id p d x ≡ (raised, d)
      go raised = refl
      go (value directive) = stage_unlocked-refuses commit_id p directive d h
