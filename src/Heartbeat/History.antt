-- ===== src/Heartbeat/History.antt =====
-- The heartbeat ledger of futures_fund/heartbeat.py: `verify_heartbeat_history`, `append_heartbeat` and
-- `heartbeat_for_schedule_slot`.
pub mod Chain
pub mod Appending
pub mod Fresh
pub mod Linked
use gpt_market_neutral_crypt.Prelude.{
  ℕ, Bool, true, false, ◌||◌, ◌&&◌, not, Option, none, some, List, [], ◌∷◌, ◌++◌, String, str_eq,
  opt_eq, leb, if◌then◌else◌, Outcome, value, raised, ◌>>=◌, ◌>>◌, raise_if, is_text,
}
use gpt_market_neutral_crypt.Ledger.{RowLine, jsonl_rows}
use gpt_market_neutral_crypt.Ledger.Rows.{file_of}
use gpt_market_neutral_crypt.Heartbeat.{
  HeartbeatRecord, HeartbeatDisk, HeartbeatCanonical, HeartbeatOthers,
}
use gpt_market_neutral_crypt.Heartbeat.Records.{
  or_text, non_empty, record_eq, record_identity, is_official, version_of, is_hashed, identity_eq,
  str_of, sort_by,
}
use gpt_market_neutral_crypt.Heartbeat.Completion.{hash_holds, verify_heartbeat_completion}

unfoldable pub official : List HeartbeatRecord → List HeartbeatRecord
official [] = []
official (r ∷ rows) = let rest = official rows in if is_official r then r ∷ rest else rest

-- The sort key of the official rows, and that of the file.
unfoldable pub history_key : HeartbeatRecord → String × String
unfolding or_text
history_key r = (str_of r.payload.ts, str_of (or_text r.payload.schedule_slot r.payload.ts))

unfoldable pub file_key : HeartbeatRecord → String × String
file_key r = (str_of r.payload.ts, str_of r.payload.kind)

-- The sort key raises on a row with no identity.
unfoldable pub identified : List HeartbeatRecord → Outcome (Unit {0})
identified [] = value tt
identified (r ∷ rows) = record_identity r >> identified rows

unfoldable pub sorted_official : List HeartbeatRecord → Outcome (List HeartbeatRecord)
unfolding identified
sorted_official rows = identified (official rows) >> value (sort_by history_key (official rows))

unfoldable pub seen_identity : String × String → List (String × String) → Bool
seen_identity id [] = false
seen_identity id (x ∷ seen) = identity_eq id x || seen_identity id seen

unfoldable pub has_commit : Option String → List HeartbeatRecord → Bool
has_commit commit [] = false
has_commit commit (r ∷ rows) = opt_eq r.commit_id commit || has_commit commit rows

abbrev pub allowed_commit : Option HeartbeatRecord → Option String
allowed_commit none = none
allowed_commit (some p) = p.commit_id

abbrev is_allowed : Option HeartbeatRecord → HeartbeatRecord → Bool
is_allowed none r = false
is_allowed (some p) r = record_eq r p

abbrev pub is_last : List HeartbeatRecord → Bool
is_last [] = true
is_last (r ∷ rows) = false

-- `existing` holds the identity.
unfoldable pub same_identity : String × String → Outcome (String × String) → Bool
same_identity id raised = false
same_identity id (value x) = identity_eq x id

-- `record.get("schedule_slot")` as a test.
abbrev pub is_scheduled : HeartbeatRecord → Bool
is_scheduled r = elim (non_empty r.payload.schedule_slot) as (λ _. Bool) [
  | raised ↦ false
  | value _ ↦ true
]

prepend : HeartbeatRecord → Option (List HeartbeatRecord) → Option (List HeartbeatRecord)
prepend x none = none
prepend x (some kept) = some (x ∷ kept)

-- One row, by whether it has the identity, whether the new row is scheduled, and whether it equals the new row.
unfoldable pub keep_row :
    Bool
    → Bool
    → Bool
    → HeartbeatRecord
    → Outcome (Option (List HeartbeatRecord))
    → Outcome (Option (List HeartbeatRecord))
unfolding prepend
keep_row false scheduled same x rest = rest >>= λ kept. value (prepend x kept)
keep_row true true false x rest = raised
keep_row true scheduled true x rest = value none
keep_row true false false x rest = rest

-- The rows of other identities, or `none` where the row is there already.
unfoldable pub other_identities :
    String × String
    → HeartbeatRecord
    → List HeartbeatRecord
    → Outcome (Option (List HeartbeatRecord))
unfolding same_identity keep_row
other_identities id r [] = value (some [])
other_identities id r (x ∷ rows) =
    keep_row (same_identity id (record_identity x)) (is_scheduled r) (record_eq x r) x
      (other_identities id r rows)

module _ (sha : HeartbeatCanonical) (o : HeartbeatOthers) where
  abbrev pub head_sha : Option HeartbeatRecord → Option String
  head_sha none = none
  head_sha (some r) = some (sha.of_record r)

  -- A hashed row; `true` if it is the row that may still be incomplete.
  unfoldable pub check_hashed :
      (HeartbeatRecord → Outcome Bool)
      → Option HeartbeatRecord
      → Option HeartbeatRecord
      → List HeartbeatRecord
      → HeartbeatRecord
      → Outcome Bool
  check_hashed intact allow previous later r = do
    raise_if (not (hash_holds sha o r))
    raise_if (not (opt_eq r.previous_heartbeat_sha256 (head_sha previous)))
    (if opt_eq r.commit_id (allowed_commit allow)
        then raise_if (not (is_allowed allow r) || not (is_last later)) >> value true
        else (do holds ← intact r; raise_if (not holds); value false))

  -- A row of any version; `hashed` if a hashed row stands before it.
  unfoldable pub check_row :
      (HeartbeatRecord → Outcome Bool)
      → Option HeartbeatRecord
      → Bool
      → Option HeartbeatRecord
      → List HeartbeatRecord
      → HeartbeatRecord
      → Outcome Bool
  unfolding check_hashed
  check_row intact allow hashed previous later r =
      if is_hashed (version_of r)
      then check_hashed intact allow previous later r
      else raise_if (not (leb (version_of r) 1) || hashed) >> value false

  -- The loop; the result is `allowed_seen`.
  unfoldable pub verify_from :
      (HeartbeatRecord → Outcome Bool)
      → Option HeartbeatRecord
      → List (String × String)
      → Bool
      → Option HeartbeatRecord
      → List HeartbeatRecord
      → Outcome Bool
  unfolding check_row seen_identity
  verify_from intact allow seen hashed previous [] = value false
  verify_from intact allow seen hashed previous (r ∷ rows) = do
    identity ← record_identity r
    raise_if (seen_identity identity seen)
    hit ← check_row intact allow hashed previous rows r
    later ←
        verify_from intact allow (identity ∷ seen) (hashed || is_hashed (version_of r)) (some r)
          rows
    value (hit || later)

  -- `verify_heartbeat_history`
  unfoldable pub verify_heartbeat_history :
      HeartbeatDisk → Option HeartbeatRecord → Outcome (Unit {0})
  unfolding sorted_official verify_from has_commit
  verify_heartbeat_history d allow = do
    rows ← jsonl_rows d.rows
    history ← sorted_official rows
    allowed_seen ← verify_from (verify_heartbeat_completion sha o d) allow [] false none history
    raise_if (
        is_text (allowed_commit allow)
        && (has_commit (allowed_commit allow) history && not allowed_seen))

  unfoldable pub latest : List HeartbeatRecord → Option HeartbeatRecord
  latest [] = none
  latest (r ∷ []) = some r
  latest (r ∷ s ∷ rows) = latest (s ∷ rows)

  -- A hashed row extends the latest official row of the others.
  unfoldable pub extends : HeartbeatRecord → List HeartbeatRecord → Outcome (Unit {0})
  unfolding sorted_official latest
  extends r rows =
      if is_hashed (version_of r)
      then (do
        raise_if (not (hash_holds sha o r))
        history ← sorted_official rows
        raise_if (not (opt_eq r.previous_heartbeat_sha256 (head_sha (latest history)))))
      else value tt

  unfoldable pub extended :
      HeartbeatRecord → Option (List HeartbeatRecord) → Outcome (Option (List HeartbeatRecord))
  unfolding extends
  extended r none = value none
  extended r (some rows) = extends r rows >> value (some (sort_by file_key (rows ++ r ∷ [])))

  -- The rows that the append writes, or `none` where it returns early.
  unfoldable pub appended_rows :
      HeartbeatDisk
      → HeartbeatRecord
      → Option HeartbeatRecord
      → Outcome (Option (List HeartbeatRecord))
  unfolding verify_heartbeat_history extended other_identities
  appended_rows d r allow = do
    verify_heartbeat_history d allow
    identity ← record_identity r
    rows ← jsonl_rows d.rows
    others ← other_identities identity r rows
    extended r others

  unfoldable pub store_rows :
      HeartbeatDisk → Outcome (Option (List HeartbeatRecord)) → Outcome (Unit {0}) × HeartbeatDisk
  store_rows d raised = (raised, d)
  store_rows d (value none) = (value tt, d)
  store_rows d (value (some rows)) = (value tt, record d { rows = file_of rows })

  -- `append_heartbeat`
  unfoldable pub append_heartbeat :
      HeartbeatDisk → HeartbeatRecord → Bool → Outcome (Unit {0}) × HeartbeatDisk
  unfolding appended_rows store_rows
  append_heartbeat d r allow_incomplete_replay =
      store_rows d (appended_rows d r (if allow_incomplete_replay then some r else none))

  unfoldable first_slot :
      (HeartbeatRecord → Outcome Bool)
      → String
      → List HeartbeatRecord
      → Outcome (Option HeartbeatRecord)
  first_slot intact slot [] = value none
  first_slot intact slot (r ∷ rows) =
      let rest = first_slot intact slot rows in
      if is_official r && opt_eq r.payload.schedule_slot (some slot)
      then (if is_hashed (version_of r)
          then (do holds ← intact r; raise_if (not holds); value (some r))
          else value (some r))
      else rest

  -- `heartbeat_for_schedule_slot`
  unfoldable heartbeat_for_schedule_slot : HeartbeatDisk → String → Outcome (Option HeartbeatRecord)
  unfolding first_slot
  heartbeat_for_schedule_slot d slot = do
    rows ← jsonl_rows d.rows
    first_slot (verify_heartbeat_completion sha o d) slot rows
