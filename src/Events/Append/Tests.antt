-- ===== src/Events/Append/Tests.antt =====
-- Runs of the event chain of futures_fund/state_transaction.py on the samples: appending.
use gpt_market_neutral_crypt.Prelude.{◌≡◌, refl, suc, some, List, [], ◌∷◌, value, raised, ◌⊎◌}
use gpt_market_neutral_crypt.Time.{epoch}
use gpt_market_neutral_crypt.Events.{
  reconcile, heartbeat, aware, Event, event_digest, load_account_events, load_from, load_row,
  row_valid, fits, known_id, validate_next, is_sha256,
}
use gpt_market_neutral_crypt.Events.Chain.{IsChain}
use gpt_market_neutral_crypt.Events.Append.{
  append_account_event, same_id, Intent, next_body, check_base, prepare_account_event,
}
use gpt_market_neutral_crypt.Events.Append.Growth.{append_grows, append_atomic}
use gpt_market_neutral_crypt.Events.Samples.{
  digest, first, second, third, first_disk, third_file, root, both_disk, first_file, both_file,
  misfit, pulse, pulse_disk, pulse_file,
}
use gpt_market_neutral_crypt.Events.References.Tests.{
  second_pending, second_misfits, third_pending, first_verified, pulse_indexed,
}

first_load : load_account_events digest first_file ≡ value (first ∷ [])
unfolding load_account_events load_from load_row row_valid fits known_id event_digest
first_load = refl

second_fits : validate_next digest (first ∷ []) second ≡ value tt
unfolding validate_next row_valid fits event_digest
second_fits = refl

second_appended : append_account_event digest both_disk first_file second ≡ (value tt, both_file)
unfolding append_account_event load_account_events load_from load_row row_valid fits known_id
    event_digest validate_next same_id
second_appended = rw (append_account_event, second_pending) refl

second_refused : append_account_event digest both_disk first_file misfit ≡ (raised, first_file)
unfolding append_account_event
second_refused = rw (append_account_event, second_misfits) refl

append_grows_example :
    (events : List Event) × (load_account_events digest first_file ≡ value events)
    × (((both_file ≡ first_file) × (same_id (some "h2") events ≡ second ∷ []))
        ⊎ ((load_account_events digest both_file ≡ value (second ∷ events))
            × IsChain digest (second ∷ events)))
append_grows_example = append_grows digest both_disk first_file both_file second second_appended

append_atomic_example : first_file ≡ first_file
append_atomic_example =
    append_atomic digest both_disk first_file first_file misfit (λ e. cc) second_refused

pub third_appended :
    append_account_event digest first_disk first_file third ≡ (value tt, third_file)
unfolding append_account_event load_account_events load_from load_row row_valid fits known_id
    event_digest validate_next same_id is_sha256
third_appended = rw (append_account_event, third_pending) refl

pub third_load : load_account_events digest third_file ≡ value (third ∷ first ∷ [])
unfolding load_account_events load_from load_row row_valid fits known_id event_digest is_sha256
third_load = refl

-- The intent of the second reconcile.
abbrev pub third_intent : Intent
third_intent = record {
  event_id = some "r3";
  kind = reconcile;
  event_ts = aware (suc epoch);
  base_account_sha256 = some "s1";
  account_state_sha256 = some "s3";
  generation_root_sha256 = some root;
}

pub third_prepared : prepare_account_event digest first_disk first_file third_intent ≡ value third
unfolding prepare_account_event load_account_events load_from load_row row_valid fits known_id
    event_digest validate_next is_sha256 next_body check_base
third_prepared = rw first_verified refl

-- The intent of a heartbeat, and its event in the chain.
abbrev pub pulse_intent : Intent
pulse_intent = record {
  event_id = some "h2";
  kind = heartbeat;
  event_ts = aware (suc epoch);
  base_account_sha256 = some "s1";
  account_state_sha256 = some "s2";
  generation_root_sha256 = some root;
}

pub pulse_prepared : prepare_account_event digest first_disk first_file pulse_intent ≡ value pulse
unfolding prepare_account_event load_account_events load_from load_row row_valid fits known_id
    event_digest validate_next is_sha256 next_body check_base
pulse_prepared = rw first_verified refl

pub pulse_appended :
    append_account_event digest pulse_disk first_file pulse ≡ (value tt, pulse_file)
unfolding append_account_event load_account_events load_from load_row row_valid fits known_id
    event_digest validate_next same_id is_sha256
pulse_appended = rw (append_account_event, pulse_indexed) refl
