-- ===== src/Commit/Recovery/Underway.antt =====
-- A recovery of futures_fund/reconcile_commit.py that is under way: what its writes leave for the
-- next recovery to find.
pub mod Kept
use gpt_market_neutral_crypt.Prelude.{
  ℕ, ◌≡◌, refl, true, false, not, Option, none, some, List, String, arith, sym, ap, ◌∙◌, value,
  raise_if, assign, >>=-eq-value, value-injective, lookup, opt_eq, opt_eq_iff, ◌==◌,
}
use gpt_market_neutral_crypt.Events.{Event}
use gpt_market_neutral_crypt.Events.References.{verify_account_event_references}
use gpt_market_neutral_crypt.Events.Append.Growth.{append_verified}
use gpt_market_neutral_crypt.Ledger.Rows.{file_of}
use gpt_market_neutral_crypt.Commit.{
  Artifact, Transaction, Canonical, Others, absent, present, staged, Disk,
}
use gpt_market_neutral_crypt.Commit.Recovery.{
  event_of, sound, lineage, rereads, root_matches, report_of, plan, publish, finish, resume,
  admitted, continue, recover_reconcile_transaction,
}
use gpt_market_neutral_crypt.Commit.Writes.{
  Write, save_account, save_output, save_equity, save_ledger, save_event, save_complete, stop,
  write, write_all, generations, publication,
}
use gpt_market_neutral_crypt.Commit.Recovery.Steps.{
  Ready, Wrote, write-Wrote, generations-absent, Wrote-Done,
}
use gpt_market_neutral_crypt.Commit.Recovery.Steps.Keeping.{write-Around}

-- A write of this transaction's account or event, if of an account or an event at all.
abbrev pub Of : Transaction → Event → Write → Type 0
Of t e (save_account a) = a ≡ t.account
Of t e (save_event f) = f ≡ e
Of t e _ = Unit

module _ (sha : Canonical) (o : Others) where
  -- The tests of a recovery that read the transaction only.
  abbrev pub Accepted : Transaction → Event → ℕ → Artifact → Type 0
  Accepted t e v report =
      (sound sha o t ≡ value v)
      × (o.directive_bound t ≡ value tt)
      × (event_of sha o (lookup "account_event" t.artifacts) ≡ value e)
      × (rereads sha o t ≡ value tt)
      × (report_of sha o (lookup "report" t.artifacts) ≡ value report)
      × ((t.ledger.cycle == t.cycle) ≡ true)
      × (root_matches sha o t e v ≡ value tt)

  -- The tests that read the disk hold, before the completion marker.
  abbrev pub Underway : Transaction → Event → Disk → Type 0
  Underway t e d =
      (d.transaction ≡ staged t)
      × (d.heartbeat_pending ≡ false)
      × (d.complete ≡ absent)
      × (verify_account_event_references sha.of_event d.others d.events (some e) ≡ value tt)
      × (lineage sha o d.account t.base_account_sha256 (sha.of_text t.account) ≡ value tt)

  pub admitted-Underway :
      (t : Transaction) (e : Event) (v : ℕ) (report : Artifact) (d : Disk)
      → Accepted t e v report
      → Underway t e d
      → admitted sha o d t ≡ value (e, v)
  unfolding admitted
  admitted-Underway t e v report d (s, bound, named, _, _, _, _) (_, _, clear, refs, _) =
      rw (s, bound, named, generations-absent sha o t.cadence t.cycle d clear, refs) refl

  pub plan-Underway :
      (t : Transaction) (e : Event) (v : ℕ) (report : Artifact) (d : Disk)
      → Accepted t e v report
      → Underway t e d
      → plan sha o d t e v ≡ value (publication sha o t e v report)
  unfolding plan
  plan-Underway t e v report d (_, _, _, again, reported, own, root) (_, _, _, _, line) =
      rw (again, line, reported, own, root) refl

  pub recover_staged :
      (t : Transaction) (d : Disk)
      → d.transaction ≡ staged t
      → d.heartbeat_pending ≡ false
      → recover_reconcile_transaction sha o d ≡ continue sha o d t (admitted sha o d t)
  unfolding recover_reconcile_transaction
  recover_staged t d st free = ground (arith, st, free)

  resume-absent :
      (t : Transaction) (e : Event) (v : ℕ) (d : Disk)
      → d.complete ≡ absent
      → resume sha o d t e v ≡ publish sha o d t (plan sha o d t e v)
  unfolding resume
  resume-absent t e v d clear = ground (arith, clear)

  -- A recovery under way does the writes of the transaction.
  pub recover-Underway :
      (t : Transaction) (e : Event) (v : ℕ) (report : Artifact) (d : Disk)
      → Accepted t e v report
      → Underway t e d
      → recover_reconcile_transaction sha o d
        ≡ finish sha o t (write_all sha o t.cadence t.cycle (publication sha o t e v report) d)
  unfolding continue publish
  recover-Underway t e v report d accepted under =
      recover_staged t d under.0 under.1
      ∙ ap (continue sha o d t) (admitted-Underway t e v report d accepted under)
      ∙ resume-absent t e v d under.2
      ∙ ap (publish sha o d t) (plan-Underway t e v report d accepted under)

  -- A recovery that has reached its writes was under way.
  pub plan-Accepted :
      (t : Transaction) (e : Event) (v : ℕ) (d : Disk) (ws : List Write)
      → admitted sha o d t ≡ value (e, v)
      → plan sha o d t e v ≡ value ws
      → (report : Artifact) × Accepted t e v report
        × (lineage sha o d.account t.base_account_sha256 (sha.of_text t.account) ≡ value tt)
  unfolding admitted plan
  plan-Accepted t e v d ws h k =
      let (v', s, h1) = >>=-eq-value (sound sha o t) _ h in
      let (_, bound, h2) = >>=-eq-value (o.directive_bound t) _ h1 in
      let (e', named, h3) =
        >>=-eq-value (event_of sha o (lookup "account_event" t.artifacts)) _ h2 in
      let (_, refs, h4) =
        >>=-eq-value
          (verify_account_event_references sha.of_event (generations sha o t.cadence t.cycle d)
            d.events (some e'))
          _ h3 in
      let (_, again, k1) = >>=-eq-value (rereads sha o t) _ k in
      let (_, line, k2) =
        >>=-eq-value (lineage sha o d.account t.base_account_sha256 (sha.of_text t.account)) _ k1 in
      let (report, reported, k3) =
        >>=-eq-value (report_of sha o (lookup "report" t.artifacts)) _ k2 in
      let (_, own, k4) = >>=-eq-value (raise_if (not (t.ledger.cycle == t.cycle))) _ k3 in
      let (_, root, k5) = >>=-eq-value (root_matches sha o t e v) _ k4 in
      let same_cycle : (t.ledger.cycle == t.cycle) ≡ true = ground (arith, own) in
      let both : ◌≡◌ {A = Event × ℕ} (e', v') (e, v) = value-injective h4 in
      (
        report,
        (
          s ∙ ap (λ (x : Event × ℕ). value x.1) both,
          bound,
          named ∙ ap (λ (x : Event × ℕ). value x.0) both,
          again,
          reported,
          same_cycle,
          root,
        ),
        line,
      )

  -- What an accepted transaction plans.
  pub plan-publication :
      (t : Transaction) (e : Event) (v : ℕ) (report : Artifact) (d : Disk) (ws : List Write)
      → Accepted t e v report
      → Underway t e d
      → plan sha o d t e v ≡ value ws
      → publication sha o t e v report ≡ ws
  plan-publication t e v report d ws accepted under h =
      value-injective (sym (plan-Underway t e v report d accepted under) ∙ h)

  -- An admitted transaction has verified its references.
  pub admitted-verified :
      (t : Transaction) (e : Event) (v : ℕ) (d : Disk)
      → d.complete ≡ absent
      → admitted sha o d t ≡ value (e, v)
      → verify_account_event_references sha.of_event d.others d.events (some e) ≡ value tt
  unfolding admitted
  admitted-verified t e v d clear h =
      let (v', s, h1) = >>=-eq-value (sound sha o t) _ h in
      let (_, bound, h2) = >>=-eq-value (o.directive_bound t) _ h1 in
      let (e', named, h3) =
        >>=-eq-value (event_of sha o (lookup "account_event" t.artifacts)) _ h2 in
      let (u, refs, h4) =
        >>=-eq-value
          (verify_account_event_references sha.of_event (generations sha o t.cadence t.cycle d)
            d.events (some e'))
          _ h3 in
      let both : ◌≡◌ {A = Event × ℕ} (e', v') (e, v) = value-injective h4 in
      let same : e' ≡ e = ap (λ (x : Event × ℕ). x.0) both in
      rw (← generations-absent sha o t.cadence t.cycle d clear, ← same) refs
