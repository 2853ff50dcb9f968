-- ===== src/Commit/Recovery/Tests.antt =====
-- Runs of the recovery of futures_fund/reconcile_commit.py on the samples.
use gpt_market_neutral_crypt.Prelude.{
  DistinctKeys, ◌≡◌, refl, different, different_some, true, false, List, [], ◌∷◌, arith, ◌∙◌, value,
  raised, take, drop, lookup, pop, assign,
}
use gpt_market_neutral_crypt.Events.{
  load_account_events, load_from, load_row, row_valid, fits, known_id, event_digest, is_sha256,
}
use gpt_market_neutral_crypt.Events.References.{reconcile_refs, event_eq, kind_eq}
use gpt_market_neutral_crypt.Events.References.Pending.{NoMarker}
use gpt_market_neutral_crypt.Events.References.Tests.{third_pending}
use gpt_market_neutral_crypt.Events.Append.Tests.{third_appended}
use gpt_market_neutral_crypt.Events.Samples.{third}
use gpt_market_neutral_crypt.Ledger.{
  append_ledger, record_equity, jsonl_rows, other_rows, sort_rows, other_equity, precedes_last,
}
use gpt_market_neutral_crypt.Commit.{json, Transaction, none_staged, staged, Disk}
use gpt_market_neutral_crypt.Commit.Completion.{
  cycle_is_complete, marker_complete, verify_completion_manifest, manifest_values, manifest_rows,
  cycle_row, matches, only, read_values, event_bound, state_bound, root_bound, root_of, contains,
  sort_names, generation_root_sha256,
}
use gpt_market_neutral_crypt.Commit.Recovery.{
  recovered, plan, admitted, sound, event_of, rereads, lineage, root_matches, report_of,
  recover_reconcile_transaction, continue, resume, publish, finish,
}
use gpt_market_neutral_crypt.Commit.Writes.{
  Write, save_event, publication, write, write_all, generations, outputs, body_writes, last_write,
  completion, rewrite,
}
use gpt_market_neutral_crypt.Commit.Recovery.Resume.{write_all-append, write_all-write}
use gpt_market_neutral_crypt.Commit.Recovery.Outcomes.{Verified, recover-Verified}
use gpt_market_neutral_crypt.Commit.Recovery.Raises.{Untouched, recover_raised}
use gpt_market_neutral_crypt.Commit.Recovery.Committed.{recover-committed}
use gpt_market_neutral_crypt.Commit.Recovery.Schedules.{
  Crashed, never, once_more, recover-crashes, crashes-incomplete,
}
use gpt_market_neutral_crypt.Commit.Recovery.Samples.{
  hashes, others, commit, before, early, middle, late, published, foreign, protocol,
}

commit_writes : List Write
commit_writes = publication hashes others commit third 4 (json "r")

commit_passes : admitted hashes others before commit ≡ value (third, 4)
unfolding admitted sound event_of generations lookup
commit_passes = rw third_pending refl

commit_planned : plan hashes others before commit third 4 ≡ value commit_writes
unfolding plan rereads lineage root_matches report_of lookup commit_writes generation_root_sha256
commit_planned = refl

crash_early : write_all hashes others "rebal" 2 (take 2 commit_writes) before ≡ (value tt, early)
unfolding write_all write commit_writes publication body_writes outputs take assign
crash_early = refl

crash_middle : write_all hashes others "rebal" 2 (take 6 commit_writes) early ≡ (value tt, middle)
unfolding write_all write commit_writes publication body_writes outputs take assign rewrite
    append_ledger record_equity jsonl_rows other_rows sort_rows other_equity precedes_last
crash_middle = refl

event_written : write hashes others "rebal" 2 (save_event third) middle ≡ (value tt, late)
unfolding write generations
event_written = rw (write, third_appended) refl

crash_late : write_all hashes others "rebal" 2 (take 7 commit_writes) early ≡ (value tt, late)
unfolding commit_writes publication body_writes outputs take write_all
crash_late =
    write_all-append hashes others "rebal" 2 (take 6 commit_writes) (save_event third ∷ []) early
      middle crash_middle
    ∙ write_all-write hashes others "rebal" 2 (save_event third) [] middle late event_written

-- Two crashes: one behind the first artifact, and one in front of the report.
crashed : Crashed hashes others commit commit_writes before late
unfolding commit_writes publication body_writes outputs
crashed =
    once_more before early late 7
      (once_more before before early 2 (never before) (omega arith) crash_early) (omega arith)
      crash_late

keys : DistinctKeys commit.artifacts
keys = (
  (
    different "runtime_provenance" "account_state" refl,
    (different "report" "account_state" refl, (different "account_event" "account_state" refl, tt)),
  ),
  (
    (
      different "report" "runtime_provenance" refl,
      (different "account_event" "runtime_provenance" refl, tt),
    ),
    ((different "account_event" "report" refl, tt), (tt, tt)),
  ),
)

undeclared : NoMarker third.event_id (reconcile_refs before.others.markers)
unfolding reconcile_refs
undeclared = (different_some "r3" "r1" refl, tt)

recover-crashes_example :
    recover_reconcile_transaction hashes others late
    ≡ recover_reconcile_transaction hashes others before
recover-crashes_example =
    recover-crashes hashes others before late commit third 4 commit_writes refl refl refl
      commit_passes commit_planned keys refl undeclared crashed

crashes-incomplete_example : cycle_is_complete hashes others late 2 "rebal" false ≡ false
crashes-incomplete_example =
    crashes-incomplete hashes others before late commit third 4 commit_writes protocol false refl
      refl refl refl (omega arith) commit_passes commit_planned keys refl undeclared crashed

written_middle :
    write_all hashes others "rebal" 2 (take 6 commit_writes) before ≡ (value tt, middle)
unfolding write_all write commit_writes publication body_writes outputs take assign rewrite
    append_ledger record_equity jsonl_rows other_rows sort_rows other_equity precedes_last
written_middle = refl

written_last : write_all hashes others "rebal" 2 (drop 7 commit_writes) late ≡ (value tt, published)
unfolding write_all write commit_writes publication body_writes outputs last_write completion drop
    assign sort_names
written_last = refl

written : write_all hashes others "rebal" 2 commit_writes before ≡ (value tt, published)
unfolding commit_writes publication body_writes outputs take drop write_all last_write
written =
    write_all-append hashes others "rebal" 2 (take 6 commit_writes)
      (save_event third ∷ drop 7 commit_writes) before middle written_middle
    ∙ write_all-write hashes others "rebal" 2 (save_event third) (drop 7 commit_writes) middle late
        event_written
    ∙ written_last

published_verified : cycle_is_complete hashes others published 2 "rebal" true ≡ true
unfolding cycle_is_complete marker_complete verify_completion_manifest manifest_values manifest_rows
    cycle_row matches only jsonl_rows read_values lookup event_bound state_bound root_bound
    generation_root_sha256 root_of contains load_account_events load_from load_row row_valid fits
    known_id event_digest is_sha256 event_eq kind_eq pop
published_verified = refl

commit_recovered :
    recover_reconcile_transaction hashes others before
    ≡ (value (recovered 2 false), record published { transaction = none_staged })
unfolding recover_reconcile_transaction continue resume publish finish
commit_recovered = rw (commit_passes, commit_planned, written, published_verified) refl

recover-Verified_example :
    (t : Transaction) × (before.transaction ≡ staged t)
    × (2 ≡ t.cycle)
    × ((d0 : Disk) × (record published { transaction = none_staged }
          ≡ record d0 { transaction = none_staged })
        × Verified hashes others t before false d0)
recover-Verified_example =
    recover-Verified hashes others before (record published { transaction = none_staged }) 2 false
      commit_recovered

foreign_passes : admitted hashes others foreign commit ≡ value (third, 4)
unfolding admitted sound event_of generations lookup
foreign_passes = rw third_pending refl

-- An account that is neither the base nor the target.
foreign_raised : recover_reconcile_transaction hashes others foreign ≡ (raised, foreign)
unfolding recover_reconcile_transaction continue resume publish plan rereads lineage
foreign_raised = rw foreign_passes refl

recover_raised_example :
    (foreign.transaction ≡ foreign.transaction) × Untouched hashes others foreign foreign
recover_raised_example = recover_raised hashes others foreign foreign foreign_raised

recover-committed_example :
    recover_reconcile_transaction hashes others published
    ≡ (value (recovered 2 true), record published { transaction = none_staged })
recover-committed_example =
    recover-committed hashes others before published
      (record published { transaction = none_staged }) commit third 4 2 commit_writes protocol refl
      refl refl refl (omega arith) commit_passes commit_planned keys refl undeclared written
      commit_recovered
