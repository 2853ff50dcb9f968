-- ===== src/Commit/Stage/Tests.antt =====
-- A staging of futures_fund/reconcile_commit.py on the samples, and a crash behind it.
use gpt_market_neutral_crypt.Prelude.{ℕ, suc, Option, none, some, [], ◌∷◌, String, value}
use gpt_market_neutral_crypt.Time.{epoch, Instant}
use gpt_market_neutral_crypt.Events.Samples.{third}
use gpt_market_neutral_crypt.Commit.{
  json, account_event_of, Artifacts, Transaction, none_staged, staged, Disk,
}
use gpt_market_neutral_crypt.Commit.Recovery.Samples.{line, commit, before}
use gpt_market_neutral_crypt.Commit.Stage.{Proposal, Sources}

abbrev pub sources : Sources
sources = record {
  default_provenance = λ (t : Instant). "p";
  directives = λ (a : Artifacts) (c : ℕ) (e : Option String). value "d";
}

abbrev pub proposal : Proposal
proposal = record {
  expected_base_account_sha256 = some "s1";
  cycle = 2;
  cadence = "rebal";
  account = "s3";
  artifacts = ("report", json "r") ∷ [];
  equity_ts = suc epoch;
  equity_value = "101.5";
  ledger = line;
  runtime_provenance = none;
  directive_expectation = none;
}

abbrev idle : Disk
idle = record before { transaction = none_staged }

abbrev proposed : Transaction
proposed = record commit {
  artifacts =
      ("report", json "r")
      ∷ ("account_state", json "s3")
      ∷ ("runtime_provenance", json "p")
      ∷ ("account_event", account_event_of third)
      ∷ [];
}

abbrev ready : Disk
ready = record before { transaction = staged proposed }
