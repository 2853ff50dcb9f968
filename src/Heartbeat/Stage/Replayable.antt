-- ===== src/Heartbeat/Stage/Replayable.antt =====
-- `stage_heartbeat_transaction` followed by `recover_heartbeat_transaction` of futures_fund/heartbeat.py.
use gpt_market_neutral_crypt.Prelude.{◌≡◌, false, String, value}
use gpt_market_neutral_crypt.Heartbeat.{
  HeartbeatTransaction, HeartbeatTransactionFile, transaction_of, HeartbeatDisk, HeartbeatCanonical,
  HeartbeatOthers,
}
use gpt_market_neutral_crypt.Heartbeat.Stage.{
  HeartbeatProposal, HeartbeatSources, intend_heartbeat, account_sha,
}

module _ (sha : HeartbeatCanonical) (o : HeartbeatOthers) (s : HeartbeatSources) where
  -- What a successful staging has done.
  abbrev StagedHeartbeat :
      String → HeartbeatProposal → HeartbeatDisk → HeartbeatTransaction → HeartbeatDisk → Type 0
  StagedHeartbeat commit_id p d t d' =
      (intend_heartbeat sha o s commit_id p d ≡ value t)
      × (account_sha sha o s d ≡ p.expected_base_account_sha256)
      × (d.reconcile_pending ≡ false)
      × (d' ≡ record d { transaction = transaction_of t })

  module _ (d : HeartbeatDisk) (f : HeartbeatTransactionFile) where
    -- The disk with another transaction file.
    abbrev refiled : HeartbeatDisk
    refiled = record d { transaction = f }
