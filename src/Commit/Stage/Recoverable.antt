-- ===== src/Commit/Stage/Recoverable.antt =====
-- `stage_reconcile_transaction` followed by `recover_reconcile_transaction` of futures_fund/reconcile_commit.py.
use gpt_market_neutral_crypt.Prelude.{◌≡◌, String, value}
use gpt_market_neutral_crypt.Commit.{Canonical, Others}
use gpt_market_neutral_crypt.Commit.Recovery.Underway.{Underway}
use gpt_market_neutral_crypt.Commit.Stage.{Sources}

module _ (sha : Canonical) (o : Others) (s : Sources) where
  -- The account reads back as itself, for its hash.
  abbrev pub ReadsBack : String → Type 0
  ReadsBack account =
      (again : String) × (o.reread_account account ≡ value again)
      × (sha.of_text again ≡ sha.of_text account)
