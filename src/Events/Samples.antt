-- ===== src/Events/Samples.antt =====
-- Account events for the tests of futures_fund/state_transaction.py: a reconcile that anchors
-- the chain, and a heartbeat and a reconcile that stand behind it, with their generations and their files. The digest tells the two
-- events apart; they have no generation root, as in schema version 1.
use gpt_market_neutral_crypt.Prelude.{String, suc, true, false, Option, none, some, List, [], ◌∷◌}
use gpt_market_neutral_crypt.Time.{epoch}
use gpt_market_neutral_crypt.Events.{
  reconcile, heartbeat, root_account_anchor, account_event, aware, Event, Line, blank, row,
}
use gpt_market_neutral_crypt.Events.References.{Marker, Beat, beat, Generations}

abbrev pub digest_of : Option String → String
digest_of none = ""
digest_of (some id) = id

abbrev pub digest : Event → String
digest e = digest_of e.event_id

abbrev pub first : Event
first = record {
  schema_version = some 1;
  event_id = some "r1";
  kind = reconcile;
  event_ts = aware epoch;
  lineage_origin = root_account_anchor;
  previous_event_id = none;
  previous_event_sha256 = none;
  base_account_sha256 = none;
  account_state_sha256 = some "s1";
  generation_root_sha256 = none;
  event_sha256 = some "r1";
}

abbrev pub second : Event
second = record {
  schema_version = some 1;
  event_id = some "h2";
  kind = heartbeat;
  event_ts = aware (suc epoch);
  lineage_origin = account_event;
  previous_event_id = some "r1";
  previous_event_sha256 = some "r1";
  base_account_sha256 = some "s1";
  account_state_sha256 = some "s2";
  generation_root_sha256 = none;
  event_sha256 = some "h2";
}

abbrev pub marker : Marker
marker = record {
  version = 3;
  account_event_id = some "r1";
  commit_id = some "r1";
  account_state_sha256 = some "s1";
  intact = true;
}

abbrev pub second_beat : Beat
second_beat = record {
  version = 3;
  commit_id = some "h2";
  account_state_sha256 = some "s2";
  account_event_sha256 = some "h2";
  intact = true;
}

abbrev pub first_disk : Generations
first_disk = record { markers = marker ∷ []; beats = [] }

-- The heartbeat's row is published before its event.
abbrev pub both_disk : Generations
both_disk = record { markers = marker ∷ []; beats = beat second_beat ∷ [] }

abbrev pub first_file : List Line
first_file = row first ∷ blank ∷ []

abbrev pub both_file : List Line
both_file = row first ∷ row second ∷ []

-- A heartbeat event that does not start from the chain's account.
abbrev pub misfit : Event
misfit = record second { base_account_sha256 = none }

-- A second reconcile, behind the first; its generation root is bound.
abbrev pub root : String
root = "0000000000000000000000000000000000000000000000000000000000000000"

abbrev pub third : Event
third = record {
  schema_version = some 2;
  event_id = some "r3";
  kind = reconcile;
  event_ts = aware (suc epoch);
  lineage_origin = account_event;
  previous_event_id = some "r1";
  previous_event_sha256 = some "r1";
  base_account_sha256 = some "s1";
  account_state_sha256 = some "s3";
  generation_root_sha256 = some root;
  event_sha256 = some "r3";
}

abbrev pub third_file : List Line
third_file = row first ∷ row third ∷ []

-- A heartbeat behind the first event, with a generation root, and its ledger row, whose generation is not complete.
abbrev pub pulse : Event
pulse = record second { schema_version = some 2; generation_root_sha256 = some root }

abbrev pub pulse_disk : Generations
pulse_disk = record {
  markers = marker ∷ [];
  beats = beat (record second_beat { version = 4; intact = false }) ∷ [];
}

abbrev pub pulse_file : List Line
pulse_file = row first ∷ row pulse ∷ []
