-- ===== src/Commit/Recovery/Underway/Kept.antt =====
-- The writes of a transaction in futures_fund/reconcile_commit.py leave its recovery under way.
use gpt_market_neutral_crypt.Prelude.{
  ℕ, ◌≡◌, refl, true, Option, none, some, String, arith, ap, ◌∙◌, value, assign, opt_eq, opt_eq_iff,
}
use gpt_market_neutral_crypt.Events.{Event}
use gpt_market_neutral_crypt.Events.References.{verify_account_event_references}
use gpt_market_neutral_crypt.Events.Append.Growth.{append_verified}
use gpt_market_neutral_crypt.Ledger.Rows.{file_of}
use gpt_market_neutral_crypt.Commit.{Transaction, Canonical, Others, present, Disk}
use gpt_market_neutral_crypt.Commit.Recovery.{lineage}
use gpt_market_neutral_crypt.Commit.Writes.{
  Write, save_account, save_output, save_equity, save_ledger, save_event, save_complete, stop,
  write,
}
use gpt_market_neutral_crypt.Commit.Recovery.Steps.{Ready, Wrote, write-Wrote, Wrote-Done}
use gpt_market_neutral_crypt.Commit.Recovery.Steps.Keeping.{write-Around}
use gpt_market_neutral_crypt.Commit.Recovery.Underway.{Of, Underway}

module _ (sha : Canonical) (o : Others) where
  lineage-target :
      (account target : String) (base : Option (Option String)) (before : Option String)
      → lineage sha o before base (sha.of_text target) ≡ value tt
      → account ≡ target
      → lineage sha o (some account) base (sha.of_text target) ≡ value tt
  unfolding lineage
  lineage-target account target none before h same = absurd (ground arith)
  lineage-target account target (some base) before h same =
      let there : opt_eq (some (sha.of_text account)) (some (sha.of_text target)) ≡ true =
        (opt_eq_iff _ _).1 (ap (λ (x : String). some (sha.of_text x)) same) in
      ground (arith, there)

  -- A write of the transaction leaves its recovery under way.
  pub write-Underway :
      (t : Transaction) (e : Event) (x : Write) (cadence : String) (cycle : ℕ) (d d' : Disk)
      → Of t e x
      → Ready x d
      → Underway sha o t e d
      → write sha o cadence cycle x d ≡ (value tt, d')
      → Underway sha o t e d'
  write-Underway t e x cadence cycle d d' own ready (st, free, clear, refs, line) h =
      let (clear', others, st', free', _) = write-Around sha o cadence cycle x d d' ready h in
      (
        st' ∙ st,
        free' ∙ free,
        clear' ∙ clear,
        events x own ready (write-Wrote sha o cadence cycle x d d' h),
        account x own (write-Wrote sha o cadence cycle x d d' h),
      )
    where
      with_events :
          (d'' : Disk)
          → d' ≡ d''
          → d''.others ≡ d.others
          → d''.events ≡ d.events
          → verify_account_event_references sha.of_event d'.others d'.events (some e) ≡ value tt
      with_events d'' h a b =
          ap (λ (y : Disk). verify_account_event_references sha.of_event y.others y.events (some e))
            h
          ∙ rw (a, b) refs

      events :
          (x : Write)
          → Of t e x
          → Ready x d
          → Wrote sha o cadence cycle x d d'
          → verify_account_event_references sha.of_event d'.others d'.events (some e) ≡ value tt
      events (save_account a) own ready w = with_events (record d { account = some a }) w refl refl
      events (save_output n v) own ready (_, w) =
          with_events (record d { files = assign n v d.files }) w refl refl
      events (save_equity r) own ready (rows, _, w) =
          with_events (record d { equity = file_of rows }) w refl refl
      events (save_ledger r) own ready (rows, _, w) =
          with_events (record d { ledger = file_of rows }) w refl refl
      events (save_event f) own ready w =
          let (_, again) = Wrote-Done sha o cadence cycle (save_event f) d d' ready w in
          rw (← own) (append_verified sha.of_event d'.others d'.events d'.events f again)
      events (save_complete c) own ready w = absurd ready
      events stop own ready w = absurd w

      with_account :
          (d'' : Disk)
          → d' ≡ d''
          → d''.account ≡ d.account
          → lineage sha o d'.account t.base_account_sha256 (sha.of_text t.account) ≡ value tt
      with_account d'' h a =
          ap (λ (y : Disk). lineage sha o y.account t.base_account_sha256 (sha.of_text t.account)) h
          ∙ rw a line

      account :
          (x : Write)
          → Of t e x
          → Wrote sha o cadence cycle x d d'
          → lineage sha o d'.account t.base_account_sha256 (sha.of_text t.account) ≡ value tt
      account (save_account a) own w =
          ap (λ (y : Disk). lineage sha o y.account t.base_account_sha256 (sha.of_text t.account)) w
          ∙ lineage-target a t.account t.base_account_sha256 d.account line own
      account (save_output n v) own (_, w) =
          with_account (record d { files = assign n v d.files }) w refl
      account (save_equity r) own (rows, _, w) =
          with_account (record d { equity = file_of rows }) w refl
      account (save_ledger r) own (rows, _, w) =
          with_account (record d { ledger = file_of rows }) w refl
      account (save_event f) own (lines, _, w) = with_account (record d { events = lines }) w refl
      account (save_complete c) own w = with_account (record d { complete = present c }) w refl
      account stop own w = absurd w
