-- ===== src/Heartbeat/Tests.antt =====
-- Runs of futures_fund/heartbeat.py on the samples.
use gpt_market_neutral_crypt.Prelude.{◌<◌, length, take, arith}
use gpt_market_neutral_crypt.Heartbeat.{Directory}
use gpt_market_neutral_crypt.Heartbeat.Completion.{record_sha, empty_directory}
use gpt_market_neutral_crypt.Heartbeat.Completion.Bound.{
  Generation, verify_heartbeat_completion-Generation,
}
use gpt_market_neutral_crypt.Heartbeat.History.Chain.{IsHistory, verify_heartbeat_history-IsHistory}
use gpt_market_neutral_crypt.Heartbeat.History.Linked.{Behind, verify_heartbeat_history-predecessor}
use gpt_market_neutral_crypt.Heartbeat.History.Appending.{AppendEnds, append_heartbeat_lem}
use gpt_market_neutral_crypt.Heartbeat.Recovery.Outcomes.{Closed, recover_heartbeat-Closed}
use gpt_market_neutral_crypt.Heartbeat.Recovery.Raises.{Interrupted, recover_heartbeat_raised}
use gpt_market_neutral_crypt.Heartbeat.Recovery.Marker.{NoMarkerYet, put_all-incomplete}
use gpt_market_neutral_crypt.Prelude.{
  ◌≡◌, refl, true, false, none, some, List, [], ◌∷◌, value, raised, lookup, assign,
}
use gpt_market_neutral_crypt.Events.{
  load_account_events, load_from, load_row, row_valid, fits, known_id, event_digest, is_sha256,
}
use gpt_market_neutral_crypt.Events.Samples.{pulse}
use gpt_market_neutral_crypt.Events.References.{version_eq, event_eq, kind_eq}
use gpt_market_neutral_crypt.Events.References.Tests.{pulse_pending}
use gpt_market_neutral_crypt.Events.Append.Tests.{pulse_appended}
use gpt_market_neutral_crypt.Ledger.{jsonl_rows}
use gpt_market_neutral_crypt.Heartbeat.{HeartbeatRecord, HeartbeatDisk, transaction_of}
use gpt_market_neutral_crypt.Heartbeat.Records.{
  record_identity, non_empty, or_text, key_le, insert_by, sort_by, record_eq, payload_eq,
}
use gpt_market_neutral_crypt.Heartbeat.Completion.{
  heartbeat_root, name_of, directory_at, directory_named, directory_of, common_valid, has_event,
  event_valid, root_valid, bound_root, bound_event, files_valid, is_hashes,
  verify_heartbeat_completion,
}
use gpt_market_neutral_crypt.Heartbeat.History.{
  append_heartbeat, appended_rows, store_rows, other_identities, extended, extends, official,
  history_key, identified, sorted_official, seen_identity, has_commit, check_hashed, check_row,
  verify_from, verify_heartbeat_history, latest,
}
use gpt_market_neutral_crypt.Heartbeat.Writes.{
  put_all, put, carry_on, heartbeat_publication, payload_write, payload_of, heartbeat_completion,
  in_directory, in_named, beat_of, beat_lines, heartbeat_generations,
}
use gpt_market_neutral_crypt.Heartbeat.Samples.{
  row_hashes, row_others, legacy, pulse_row, pulse_transaction, empty_ledger, staged_ledger,
  pulse_ledger, linked_row, linked_ledger,
}
use gpt_market_neutral_crypt.Heartbeat.Recovery.{
  replayed, recover_heartbeat_transaction, continue_heartbeat, sound_heartbeat,
  supported_transaction, heartbeat_in, event_in, payload_in, event_matches, payload_matches,
  marker_agrees, ready, account_matches, lineage_holds, closed, replay, settle_transaction,
}

linked_verified :
    verify_heartbeat_history row_hashes row_others linked_ledger (some linked_row) ≡ value tt
unfolding verify_heartbeat_history sorted_official identified official history_key or_text non_empty
    record_identity sort_by insert_by key_le verify_from check_row check_hashed seen_identity
    has_commit jsonl_rows record_eq payload_eq version_eq
linked_verified = refl

pulse_verified :
    verify_heartbeat_completion row_hashes row_others pulse_ledger pulse_row ≡ value true
unfolding verify_heartbeat_completion directory_of directory_named name_of directory_at lookup
    files_valid common_valid bound_event event_valid has_event bound_root root_valid heartbeat_root
    is_hashes record_identity or_text non_empty record_eq payload_eq version_eq event_eq kind_eq
    load_account_events load_from load_row row_valid fits known_id event_digest is_sha256
pulse_verified = refl

abbrev written_ledger : HeartbeatDisk
written_ledger = record pulse_ledger { transaction = transaction_of pulse_transaction }

written_verified :
    verify_heartbeat_completion row_hashes row_others written_ledger pulse_row ≡ value true
unfolding verify_heartbeat_completion directory_of
written_verified = pulse_verified

pulse_sound : sound_heartbeat row_hashes row_others pulse_transaction ≡ value (4, pulse_row, pulse)
unfolding sound_heartbeat supported_transaction heartbeat_in event_in payload_in event_matches
    payload_matches heartbeat_root payload_eq non_empty
pulse_sound = refl

before_writes : ready row_hashes row_others staged_ledger pulse_row pulse ≡ value false
unfolding ready marker_agrees verify_heartbeat_history verify_heartbeat_completion sorted_official
    identified official sort_by verify_from has_commit jsonl_rows heartbeat_generations beat_lines
    directory_of directory_named name_of directory_at lookup files_valid record_identity or_text
    non_empty
before_writes = rw pulse_pending refl

pulse_written :
    put_all row_hashes row_others pulse_row
      (heartbeat_publication row_hashes row_others pulse_transaction 4 pulse_row pulse "s2")
      staged_ledger
    ≡ (value tt, written_ledger)
unfolding put_all put carry_on heartbeat_publication payload_write payload_of heartbeat_completion
    in_directory in_named directory_at name_of record_identity or_text non_empty lookup assign
    append_heartbeat appended_rows store_rows other_identities extended extends latest
    verify_heartbeat_history sorted_official identified official sort_by insert_by verify_from
    has_commit jsonl_rows heartbeat_generations beat_lines beat_of verify_heartbeat_completion
    directory_of directory_named files_valid
pulse_written = rw pulse_appended refl

pulse_replayed :
    recover_heartbeat_transaction row_hashes row_others staged_ledger
    ≡ (value (replayed (some "t2") false), pulse_ledger)
unfolding recover_heartbeat_transaction continue_heartbeat settle_transaction replay lineage_holds
    closed account_matches
pulse_replayed = rw (pulse_sound, before_writes, pulse_written, written_verified) refl

verify_heartbeat_history-IsHistory_example :
    (rows : List HeartbeatRecord) × (jsonl_rows linked_ledger.rows ≡ value rows)
    × IsHistory row_hashes row_others
        (verify_heartbeat_completion row_hashes row_others linked_ledger)
        (some linked_row)
        false
        none
        (sort_by history_key (official rows))
verify_heartbeat_history-IsHistory_example =
    verify_heartbeat_history-IsHistory row_hashes row_others linked_ledger (some linked_row)
      linked_verified

linked-Behind : Behind row_hashes row_others linked_ledger legacy linked_row
unfolding jsonl_rows sort_by insert_by key_le official history_key or_text
linked-Behind = (legacy ∷ linked_row ∷ [], [], [], refl, refl)

verify_heartbeat_history-predecessor_example : legacy ≡ legacy
verify_heartbeat_history-predecessor_example =
    verify_heartbeat_history-predecessor row_hashes row_others linked_ledger linked_ledger
      (some linked_row) (some linked_row) legacy legacy linked_row (λ h. refl) linked_verified
      linked_verified (omega arith) linked-Behind linked-Behind

append_heartbeat_lem_example :
    AppendEnds row_hashes row_others empty_ledger pulse_row
      (some pulse_row)
      (append_heartbeat row_hashes row_others empty_ledger pulse_row true)
append_heartbeat_lem_example =
    append_heartbeat_lem row_hashes row_others empty_ledger pulse_row true

verify_heartbeat_completion-Generation_example :
    (f : Directory) × (directory_of row_hashes row_others pulse_ledger pulse_row ≡ value f)
    × (pulse_row.record_sha256 ≡ some (record_sha row_hashes row_others pulse_row))
    × Generation row_hashes row_others pulse_ledger.events f pulse_row
verify_heartbeat_completion-Generation_example =
    verify_heartbeat_completion-Generation row_hashes row_others pulse_ledger pulse_row
      pulse_verified refl

recover_heartbeat-Closed_example :
    Closed row_hashes row_others staged_ledger (some "t2") false pulse_ledger
recover_heartbeat-Closed_example =
    recover_heartbeat-Closed row_hashes row_others staged_ledger pulse_ledger (some "t2") false
      pulse_replayed

abbrev both_staged : HeartbeatDisk
both_staged = record staged_ledger { reconcile_pending = true }

both_refused :
    recover_heartbeat_transaction row_hashes row_others both_staged ≡ (raised, both_staged)
unfolding recover_heartbeat_transaction
both_refused = refl

recover_heartbeat_raised_example :
    (both_staged.transaction ≡ both_staged.transaction)
    × Interrupted row_hashes row_others both_staged both_staged
recover_heartbeat_raised_example =
    recover_heartbeat_raised row_hashes row_others both_staged both_staged both_refused

unmarked : NoMarkerYet row_hashes row_others pulse_row empty_ledger
unfolding directory_of directory_named directory_at name_of record_identity or_text non_empty lookup
unmarked = (empty_directory, refl, refl)

six_writes :
    6
    < length (heartbeat_publication row_hashes row_others pulse_transaction 4 pulse_row pulse "s2")
unfolding heartbeat_publication payload_write payload_of
six_writes = omega arith

put_all-incomplete_example :
    verify_heartbeat_completion row_hashes row_others
      (put_all row_hashes row_others pulse_row
        (take 6
          (heartbeat_publication row_hashes row_others pulse_transaction 4 pulse_row pulse "s2"))
        empty_ledger).1
      pulse_row
    ≡ value false
put_all-incomplete_example =
    put_all-incomplete row_hashes row_others pulse_transaction 4 pulse_row pulse "s2" empty_ledger 6
      unmarked six_writes
