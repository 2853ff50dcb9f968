-- ===== src/Exclusion.antt =====
-- The reconcile transaction of futures_fund/reconcile_commit.py and the heartbeat transaction of futures_fund/heartbeat.py
-- on one state directory: they share account.json and account-events.jsonl, and each looks for the other's file. A crash
-- ends a recovery behind any of its writes.
pub mod Invariant
mod Tests
use gpt_market_neutral_crypt.Prelude.{
  ℕ, ◌≡◌, refl, ◌⊎◌, inl, inr, Bool, true, false, ◌&&◌, Option, List, String, arith, sym, ap, ◌∙◌,
  Outcome, value, raised, Bool-cases, take, if◌then◌else◌, subst,
}
use gpt_market_neutral_crypt.Events.{Event}
use gpt_market_neutral_crypt.Commit.{
  Transaction, Canonical, Others, TransactionFile, none_staged, malformed, staged, Disk,
}
use gpt_market_neutral_crypt.Commit.Writes.{Write, write_all, generations}
use gpt_market_neutral_crypt.Commit.Recovery.{recover_reconcile_transaction}
use gpt_market_neutral_crypt.Commit.Stage.{Proposal, Sources, stage_reconcile_transaction}
use gpt_market_neutral_crypt.Heartbeat.{
  HeartbeatRecord, HeartbeatTransaction, HeartbeatTransactionFile, no_transaction, torn_transaction,
  transaction_of, HeartbeatDisk, HeartbeatCanonical, HeartbeatOthers,
}
use gpt_market_neutral_crypt.Heartbeat.Recovery.{recover_heartbeat_transaction}
use gpt_market_neutral_crypt.Heartbeat.Writes.{HeartbeatWrite, put_all, heartbeat_generations}
use gpt_market_neutral_crypt.Heartbeat.Stage.{
  HeartbeatProposal, HeartbeatSources, stage_heartbeat_transaction,
}

-- The state directory. The account and the events are those of `reconcile`.
pub record StateDir : Type 0 where
  pub reconcile : Disk
  pub heartbeat : HeartbeatDisk

-- `….exists()` of the transaction files.
unfoldable pub reconcile_exists : StateDir → Bool
reconcile_exists d = elim d.reconcile.transaction as (λ _. Bool) [ none_staged ↦ false | _ ↦ true ]

unfoldable pub heartbeat_exists : StateDir → Bool
heartbeat_exists d = elim d.heartbeat.transaction as (λ _. Bool) [
  | no_transaction ↦ false
  | _ ↦ true
]

module _ (sha : Canonical) (hsha : HeartbeatCanonical) (o : Others) (ho : HeartbeatOthers)
    (s : Sources) (hs : HeartbeatSources) where
  -- Both modules hash texts and events with `canonical_json_sha256`.
  abbrev pub shared : HeartbeatCanonical
  shared = record hsha { of_text = sha.of_text; of_event = sha.of_event }

  -- What each module finds.
  unfoldable pub reconcile_view : StateDir → Disk
  unfolding heartbeat_exists
  reconcile_view d = record d.reconcile {
    others = record d.reconcile.others {
      beats = (heartbeat_generations shared ho d.heartbeat).beats;
    };
    heartbeat_pending = heartbeat_exists d;
  }

  unfoldable pub heartbeat_view : String → ℕ → StateDir → HeartbeatDisk
  unfolding reconcile_exists
  heartbeat_view cadence cycle d = record d.heartbeat {
    account = d.reconcile.account;
    events = d.reconcile.events;
    markers = (generations sha o cadence cycle d.reconcile).markers;
    reconcile_pending = reconcile_exists d;
  }

  unfoldable pub after_reconcile : StateDir → Disk → StateDir
  after_reconcile d x = record d { reconcile = x }

  unfoldable pub after_heartbeat : StateDir → HeartbeatDisk → StateDir
  after_heartbeat d x = record {
    reconcile = record d.reconcile { account = x.account; events = x.events };
    heartbeat = x;
  }

  -- One operation of either module, whatever its result, or a recovery that a crash cuts short. `cadence` and `cycle` name
  -- the directory of the reconcile generation.
  pub data Step (cadence : String) (cycle : ℕ) : StateDir → StateDir → Type 0 where
    stage_reconcile :
        (d : StateDir) (commit_id : String) (p : Proposal)
        → Step cadence cycle d (
            after_reconcile d
              (stage_reconcile_transaction sha o s commit_id p (reconcile_view d)).1)
    recover_reconcile :
        (d : StateDir)
        → Step cadence cycle d
            (after_reconcile d (recover_reconcile_transaction sha o (reconcile_view d)).1)
    crash_reconcile :
        (d : StateDir) (t : Transaction) (ws : List Write) (n : ℕ)
        → d.reconcile.transaction ≡ staged t
        → Step cadence cycle d
            (after_reconcile d (write_all sha o cadence cycle (take n ws) (reconcile_view d)).1)
    stage_heartbeat :
        (d : StateDir) (commit_id : String) (p : HeartbeatProposal)
        → Step cadence cycle d (
            after_heartbeat d
              (stage_heartbeat_transaction shared ho hs commit_id p
                (heartbeat_view cadence cycle d)).1)
    recover_heartbeat :
        (d : StateDir)
        → Step cadence cycle d (
            after_heartbeat d
              (recover_heartbeat_transaction shared ho (heartbeat_view cadence cycle d)).1)
    crash_heartbeat :
        (d : StateDir) (t : HeartbeatTransaction) (r : HeartbeatRecord) (ws : List HeartbeatWrite)
        (n : ℕ)
        → d.heartbeat.transaction ≡ transaction_of t
        → Step cadence cycle d
            (after_heartbeat d (put_all shared ho r (take n ws) (heartbeat_view cadence cycle d)).1)

  -- Any number of them.
  pub data Runs (cadence : String) (cycle : ℕ) : StateDir → StateDir → Type 0 where
    rest : (d : StateDir) → Runs cadence cycle d d
    then :
        (d d1 d2 : StateDir)
        → Runs cadence cycle d d1
        → Step cadence cycle d1 d2
        → Runs cadence cycle d d2
