-- ===== src/Heartbeat/Stage/Refusal.antt =====
-- `stage_heartbeat_transaction` of futures_fund/heartbeat.py while a reconcile transaction is pending.
use gpt_market_neutral_crypt.Prelude.{
  ◌≡◌, refl, true, not, String, arith, Bool-cases, inl, inr, opt_eq, raised,
}
use gpt_market_neutral_crypt.Heartbeat.{
  HeartbeatTransactionFile, no_transaction, torn_transaction, transaction_of, HeartbeatDisk,
  HeartbeatCanonical, HeartbeatOthers,
}
use gpt_market_neutral_crypt.Heartbeat.Stage.{
  HeartbeatProposal, HeartbeatSources, account_sha, stage_heartbeat_transaction,
}

module _ (sha : HeartbeatCanonical) (o : HeartbeatOthers) (s : HeartbeatSources) where
  -- It raises and writes nothing.
  pub stage_heartbeat-refuses :
      (commit_id : String) (p : HeartbeatProposal) (d : HeartbeatDisk)
      → d.reconcile_pending ≡ true
      → stage_heartbeat_transaction sha o s commit_id p d ≡ (raised, d)
  unfolding stage_heartbeat_transaction
  stage_heartbeat-refuses commit_id p d h = go d.transaction refl
    where
      go :
          (f : HeartbeatTransactionFile)
          → d.transaction ≡ f
          → stage_heartbeat_transaction sha o s commit_id p d ≡ (raised, d)
      go torn_transaction there = ground (arith, there)
      go (transaction_of t) there = ground (arith, there)
      go no_transaction there =
          elim (Bool-cases (not (opt_eq (account_sha sha o s d) p.expected_base_account_sha256))) [
            | inl other ↦ ground (arith, there, h, other)
            | inr same ↦ ground (arith, there, h, same)
          ]
