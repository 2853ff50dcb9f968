-- ===== src/Lib.antt =====
-- A model of the trading desk in futures_fund/ and scripts/: the parts that decide when a cycle
-- runs, that keep two runs apart, and that commit a run's account to disk.
--
-- How the parts interact. cron polls scripts/desk_schedule_gate.py, which claims each nominal slot
-- once (Gate). A run takes the lock of futures_fund/runlock.py (RunLock), asks `cycle_due` of
-- futures_fund/scheduling.py for the cycle's number (Scheduling), and commits its generation by
-- futures_fund/reconcile_commit.py, whose ledger and equity rows are in Ledger and whose account
-- events make up the hash chain of futures_fund/state_transaction.py (Events). The account that it
-- commits is changed by funding and fills (Account, Funding). Between cycles futures_fund/heartbeat.py commits
-- the funding that has fallen due in the same way, on the same account and event chain (Heartbeat, Exclusion).
--
-- Prelude: shared names, `Outcome` for calls that may raise, Boolean tests, Python's dictionaries. Time: instants in
-- microseconds, the range of `datetime`.
-- Scheduling: `floor_tf`, `served_candle` (`_served_candle`), `cycle_due`, whose loop over the
-- cycle directories is `last_completed`.
-- Gate: `latest_slot`, `due_slot`, `claim_due_slot`, `release_claim`, `seed_current_slots`, `main`.
-- RunLock: `step` is one system call of `try_acquire`, with its eight rounds as in the source; a
-- schedule interleaves processes.
-- Events: `load_account_events`, `verify_account_event_references`, `prepare_account_event`,
-- `append_account_event`. The digest is a parameter; the intactness of a generation, decided by
-- other modules, is a field of what is read from disk.
-- Ledger: `append_ledger`, `record_equity`; a JSON object is its canonical text where only its
-- equality counts.
-- Commit: the durable generation of futures_fund/reconcile_commit.py and what is on disk (`Disk`:
-- account.json, the directory of the cycle that is being committed, the per-cycle rows, the event
-- chain, the transaction and protocol files). Commit/Completion: `_verify_completion_manifest`,
-- `cycle_is_complete`. Commit/Completed: `completed_artifact_sha256`. Commit/Stage: `stage_reconcile_transaction`. Commit/Writes: the durable writes
-- of a recovery, each one atomic step (`write`), in the order of the source (`publication`).
-- Commit/Recovery: `recover_reconcile_transaction`; a crash falls between two writes
-- (Commit/Recovery/Crash, Commit/Recovery/Schedules for any number of them), or behind the last
-- (Commit/Recovery/Committed).
-- `canonical_json_sha256` is a parameter (`Canonical`), and so are the tests that other modules make:
-- the runtime provenance, the directive binding, the account's validation, the names of artifacts
-- (`Others`, `Sources`). The exclusive lock of a transaction keeps other writers away, so the other
-- generations are constant while one is committed.
-- Heartbeat: futures_fund/heartbeat.py, the counterpart of the reconcile commit for the token-free heartbeat, on its own view
-- of the disk (`HeartbeatDisk`). A ledger row is its payload and the fields that the protocol adds (`HeartbeatRecord`).
-- Heartbeat/History: `verify_heartbeat_history`, `append_heartbeat`, `heartbeat_for_schedule_slot`. Heartbeat/Completion:
-- `verify_heartbeat_completion`. Heartbeat/Stage: `stage_heartbeat_transaction`. Heartbeat/Writes: the durable writes of a
-- recovery (`put`), in the order of the source (`heartbeat_publication`). Heartbeat/Recovery:
-- `recover_heartbeat_transaction`.
-- Exclusion: both modules on one state directory, which share the account and the event chain; `Step` is one staging or
-- recovery of either, or a recovery that a crash cuts short.
-- Account: the PAPER account of futures_fund/account.py. Amounts are of any type with the operations
-- of a float as parameters (`Arithmetic`); the theorems on money take the laws of exact amounts
-- (`Exact`) as a hypothesis, since binary floating point rounds. Account/Settle: `settle_funding`,
-- `settle_funding_events`. Account/Reconcile: `_reconcile_opposite`. Account/Fills: `apply_fills`,
-- with the fee and the slippage of a fill as a parameter.
-- Funding: `count_funding_events` of futures_fund/costs.py.
-- Every loop is structural recursion but the hourly one of `count_funding_events`, which has a
-- round for every hour up to the window's end as fuel: its count is proved exact.
--
-- Not modelled: network and market data, the agents and their contracts, reports and scoring,
-- failing writes (each durable write is one atomic step), and the text of exceptions. Of the
-- reconcile commit: the one-time migration of old manifests, the listing of completed cycles, and
-- files of it that are no JSON object but the transaction and the marker; a protocol file that `_protocol` refuses, on which
-- each operation raises; and a transaction with an artifact named `complete`, which staging refuses and a recovery would
-- write over the marker's file. Of the heartbeat:
-- `settle_funding_heartbeat`, which measures the book; to the reconcile commit the rows of the ledger are constant, and to
-- the heartbeat so are the reconcile generations. A heartbeat version that `int` refuses counts as a line that
-- does not parse.
pub mod Prelude
pub mod Time
pub mod Scheduling
pub mod Gate
pub mod RunLock
pub mod Events
pub mod Ledger
pub mod Funding
pub mod Account
pub mod Commit
pub mod Heartbeat
pub mod Exclusion
