-- ===== src/Commit/Recovery/Samples.antt =====
-- A staged reconcile and its disk for the tests of futures_fund/reconcile_commit.py. A JSON value is its own hash.
use gpt_market_neutral_crypt.Prelude.{suc, true, false, none, some, List, [], ◌∷◌, String, value}
use gpt_market_neutral_crypt.Time.{epoch}
use gpt_market_neutral_crypt.Events.Samples.{
  digest, root, third, third_file, first_disk, first_file,
}
use gpt_market_neutral_crypt.Ledger.{LedgerRow, EquityRow, row, blank}
use gpt_market_neutral_crypt.Commit.{
  Artifact, json, account_event_of, Transaction, Canonical, Others, Complete, Manifest, absent,
  present, staged, Protocol, Disk,
}

abbrev pub hashes : Canonical
hashes = record {
  of_text = λ (s : String). s;
  of_event = digest;
  of_equity = λ (r : EquityRow). r.equity;
  of_root = λ b. root;
  of_intent = λ t. t.commit_id;
}

abbrev pub others : Others
others = record {
  provenance_valid = λ (s : String). true;
  reread_account = λ (s : String). value s;
  directive_bound = λ (t : Transaction). value tt;
  is_artifact_name = λ (s : String). true;
  reported_cycle = λ (s : String). none;
}

abbrev pub line : LedgerRow
line = record { cycle = 2; text = "l2" }

abbrev pub amount : EquityRow
amount = record { cycle = 2; ts = suc epoch; equity = "101.5" }

abbrev pub commit : Transaction
commit = record {
  version = some 2;
  paper_only = true;
  manifest_version = some 4;
  commit_id = "r3";
  cycle = 2;
  cadence = "rebal";
  base_account_sha256 = some (some "s1");
  account = "s3";
  artifacts =
      ("account_state", json "s3")
      ∷ ("runtime_provenance", json "p")
      ∷ ("report", json "r")
      ∷ ("account_event", account_event_of third)
      ∷ [];
  equity_ts = suc epoch;
  equity_value = "101.5";
  ledger = line;
  generation_root_sha256 = some root;
  directive_expectation = some "d";
  intent_sha256 = some "r3";
}

abbrev pub protocol : Protocol
protocol = record { first_cycle = 1; manifest_required = true }

-- The first reconcile is published, and the second one staged.
abbrev pub before : Disk
before = record {
  account = some "s1";
  files = [];
  complete = absent;
  ledger = row (record { cycle = 1; text = "l1" }) ∷ [];
  equity = row (record { cycle = 1; ts = epoch; equity = "100.0" }) ∷ blank ∷ [];
  events = first_file;
  others = first_disk;
  transaction = staged commit;
  heartbeat_pending = false;
  protocol = some protocol;
}

abbrev pub all_files : List (String × Artifact)
all_files =
    ("account_state", json "s3")
    ∷ ("runtime_provenance", json "p")
    ∷ ("account_event", account_event_of third)
    ∷ ("report", json "r")
    ∷ []

-- After the account and one artifact, in front of the event, and behind it.
abbrev pub early : Disk
early = record before { account = some "s3"; files = ("account_state", json "s3") ∷ [] }

abbrev pub middle : Disk
middle = record before {
  account = some "s3";
  files =
      ("account_state", json "s3")
      ∷ ("runtime_provenance", json "p")
      ∷ ("account_event", account_event_of third)
      ∷ [];
  ledger = row (record { cycle = 1; text = "l1" }) ∷ row line ∷ [];
  equity = row (record { cycle = 1; ts = epoch; equity = "100.0" }) ∷ row amount ∷ [];
}

abbrev pub late : Disk
late = record middle { events = third_file }

-- The generation with its marker.
abbrev pub listed_names : List (String × String)
listed_names =
    ("account_event", "r3")
    ∷ ("account_state", "s3")
    ∷ ("report", "r")
    ∷ ("runtime_provenance", "p")
    ∷ []

abbrev pub listed_manifest : Manifest
listed_manifest = record {
  version = 4;
  artifact_sha256 = listed_names;
  ledger_sha256 = some "l2";
  equity_sha256 = some "101.5";
  account_state_sha256 = some "s3";
  runtime_provenance_sha256 = some "p";
  generation_root_sha256 = some root;
}

abbrev pub marker : Complete
marker = record {
  paper_only = true;
  cycle = 2;
  cadence = some "rebal";
  commit_id = some "r3";
  account_event_id = some "r3";
  previous_account_event_id = some "r1";
  manifest = some listed_manifest;
}

abbrev pub published : Disk
published = record late { files = all_files; complete = present marker }

abbrev pub foreign : Disk
foreign = record before { account = some "s9" }

-- Another commit's generation in the cycle's directory.
abbrev pub occupied : Disk
occupied = record before { complete = present (record marker { commit_id = some "r9" }) }
