-- ===== src/Exclusion/Tests.antt =====
-- A run of both modules on the samples: a reconcile and, behind its recovery, a heartbeat.
use gpt_market_neutral_crypt.Prelude.{refl, inl}
use gpt_market_neutral_crypt.Commit.{none_staged}
use gpt_market_neutral_crypt.Commit.Recovery.{recover_reconcile_transaction}
use gpt_market_neutral_crypt.Commit.Recovery.Samples.{hashes, others, before}
use gpt_market_neutral_crypt.Commit.Stage.{stage_reconcile_transaction}
use gpt_market_neutral_crypt.Commit.Stage.Tests.{sources, proposal}
use gpt_market_neutral_crypt.Heartbeat.Stage.{stage_heartbeat_transaction}
use gpt_market_neutral_crypt.Heartbeat.Samples.{
  row_hashes, row_others, row_sources, proposed_row, empty_ledger,
}
use gpt_market_neutral_crypt.Exclusion.{
  StateDir, reconcile_exists, shared, reconcile_view, heartbeat_view, after_reconcile,
  after_heartbeat, stage_reconcile, recover_reconcile, stage_heartbeat, Runs, rest, then,
}
use gpt_market_neutral_crypt.Exclusion.Invariant.{AtMostOne, Runs-AtMostOne}

abbrev quiet : StateDir
quiet = record { reconcile = record before { transaction = none_staged }; heartbeat = empty_ledger }

abbrev reconcile_staged : StateDir
reconcile_staged =
    after_reconcile hashes row_hashes others row_others sources row_sources quiet
      (stage_reconcile_transaction hashes others sources "r3" proposal
        (reconcile_view hashes row_hashes others row_others sources row_sources quiet)).1

abbrev reconcile_recovered : StateDir
reconcile_recovered =
    after_reconcile hashes row_hashes others row_others sources row_sources reconcile_staged
      (recover_reconcile_transaction hashes others
        (reconcile_view hashes row_hashes others row_others sources row_sources reconcile_staged)).1

abbrev heartbeat_staged : StateDir
heartbeat_staged =
    after_heartbeat hashes row_hashes others row_others sources row_sources reconcile_recovered
      (stage_heartbeat_transaction (shared hashes row_hashes others row_others sources row_sources)
        row_others row_sources "h2" proposed_row
        (heartbeat_view hashes row_hashes others row_others sources row_sources "rebal" 2
          reconcile_recovered)).1

no_transaction_yet : AtMostOne quiet
unfolding reconcile_exists
no_transaction_yet = inl refl

three_steps :
    Runs hashes row_hashes others row_others sources row_sources "rebal" 2 quiet heartbeat_staged
three_steps =
    then quiet reconcile_recovered heartbeat_staged
      (then quiet reconcile_staged reconcile_recovered
        (then quiet quiet reconcile_staged (rest quiet) (stage_reconcile quiet "r3" proposal))
        (recover_reconcile reconcile_staged))
      (stage_heartbeat reconcile_recovered "h2" proposed_row)

Runs-AtMostOne_example : AtMostOne heartbeat_staged
Runs-AtMostOne_example =
    Runs-AtMostOne hashes row_hashes others row_others sources row_sources "rebal" 2 quiet
      heartbeat_staged three_steps no_transaction_yet
