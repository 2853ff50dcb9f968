-- ===== src/Events/References/Tests.antt =====
-- Runs of the event chain of futures_fund/state_transaction.py on the samples: the references.
use gpt_market_neutral_crypt.Prelude.{◌≡◌, refl, none, some, List, value, raised, All}
use gpt_market_neutral_crypt.Events.{
  Event, event_digest, load_account_events, load_from, load_row, row_valid, fits, known_id,
  validate_next, is_sha256,
}
use gpt_market_neutral_crypt.Events.References.{
  Beat, reconcile_refs, heartbeat_refs, verify_account_event_references, marker_ids, beat_ids,
  markers_of, beats_of, find_event, event_eq, kind_eq, check_ids, check_events, check_pending,
}
use gpt_market_neutral_crypt.Events.References.Bound.{IsDeclared, IsNamed, verified_references}
use gpt_market_neutral_crypt.Events.Samples.{
  digest, second, third, first_disk, both_disk, first_file, both_file, misfit, pulse, pulse_disk,
}

pub both_verified : verify_account_event_references digest both_disk both_file none ≡ value tt
unfolding verify_account_event_references check_pending check_ids check_events validate_next
    load_account_events load_from load_row row_valid fits known_id event_digest heartbeat_refs
    marker_ids reconcile_refs find_event markers_of beats_of beat_ids event_eq kind_eq
both_verified = refl

pub both_again : verify_account_event_references digest both_disk both_file (some second) ≡ value tt
unfolding verify_account_event_references check_pending check_ids check_events validate_next
    load_account_events load_from load_row row_valid fits known_id event_digest heartbeat_refs
    marker_ids reconcile_refs find_event markers_of beats_of beat_ids event_eq kind_eq
both_again = refl

-- The heartbeat whose row stands there may be pending; one from another account may not.
pub second_pending :
    verify_account_event_references digest both_disk first_file (some second) ≡ value tt
unfolding verify_account_event_references check_pending check_ids check_events validate_next
    load_account_events load_from load_row row_valid fits known_id event_digest heartbeat_refs
    marker_ids reconcile_refs find_event markers_of beats_of beat_ids event_eq kind_eq
second_pending = refl

pub second_misfits :
    verify_account_event_references digest both_disk first_file (some misfit) ≡ raised
unfolding verify_account_event_references check_pending check_ids check_events validate_next
    load_account_events load_from load_row row_valid fits known_id event_digest heartbeat_refs
    marker_ids reconcile_refs find_event markers_of beats_of beat_ids event_eq kind_eq
second_misfits = refl

verified_references_example :
    (events : List Event) × (beats : List Beat) × (load_account_events digest both_file
      ≡ value events)
    × (heartbeat_refs both_disk.beats ≡ value beats)
    × All (IsDeclared (reconcile_refs both_disk.markers) beats) events
    × All
        (IsNamed events (reconcile_refs both_disk.markers) beats)
        (marker_ids (reconcile_refs both_disk.markers))
    × All (IsNamed events (reconcile_refs both_disk.markers) beats) (beat_ids beats)
verified_references_example = verified_references digest both_disk both_file both_verified

pub third_pending :
    verify_account_event_references digest first_disk first_file (some third) ≡ value tt
unfolding verify_account_event_references check_pending check_ids check_events validate_next
    load_account_events load_from load_row row_valid fits known_id event_digest heartbeat_refs
    marker_ids reconcile_refs find_event markers_of beats_of beat_ids event_eq kind_eq is_sha256
third_pending = refl

-- A heartbeat may be pending before and after its row is written.
pub pulse_pending :
    verify_account_event_references digest first_disk first_file (some pulse) ≡ value tt
unfolding verify_account_event_references check_pending check_ids check_events validate_next
    load_account_events load_from load_row row_valid fits known_id event_digest heartbeat_refs
    marker_ids reconcile_refs find_event markers_of beats_of beat_ids event_eq kind_eq is_sha256
pulse_pending = refl

pub pulse_indexed :
    verify_account_event_references digest pulse_disk first_file (some pulse) ≡ value tt
unfolding verify_account_event_references check_pending check_ids check_events validate_next
    load_account_events load_from load_row row_valid fits known_id event_digest heartbeat_refs
    marker_ids reconcile_refs find_event markers_of beats_of beat_ids event_eq kind_eq is_sha256
pulse_indexed = refl

pub first_verified : verify_account_event_references digest first_disk first_file none ≡ value tt
unfolding verify_account_event_references check_pending check_ids check_events load_account_events
    load_from load_row row_valid fits known_id event_digest heartbeat_refs marker_ids reconcile_refs
    find_event markers_of beats_of beat_ids kind_eq
first_verified = refl
