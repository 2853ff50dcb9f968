-- ===== src/Commit/Recovery/Committed.antt =====
-- `recover_reconcile_transaction` of futures_fund/reconcile_commit.py after a crash between the
-- completion marker and the removal of the transaction.
use gpt_market_neutral_crypt.Prelude.{
  ℕ, ◌≤◌, ◌≡◌, refl, true, false, some, List, arith, sym, ap, subst, ◌∙◌, All, Outcome, value,
  lookup, ltb, DistinctKeys, All-append_right,
}
use gpt_market_neutral_crypt.Events.{Event, reconcile}
use gpt_market_neutral_crypt.Events.References.{reconcile_refs, verify_account_event_references}
use gpt_market_neutral_crypt.Events.References.Pending.{NoMarker}
use gpt_market_neutral_crypt.Events.Append.{append_account_event}
use gpt_market_neutral_crypt.Commit.{
  Artifact, Transaction, Canonical, Others, absent, present, none_staged, staged, Protocol, Disk,
}
use gpt_market_neutral_crypt.Commit.Completed.{complete-manifest}
use gpt_market_neutral_crypt.Commit.Completion.{cycle_is_complete}
use gpt_market_neutral_crypt.Commit.Writes.{
  Write, write_all, body_writes, publication, completion, generations, outputs, unreported,
}
use gpt_market_neutral_crypt.Commit.Recovery.{
  Result, recovered, plan, admitted, finish, continue, account_is, recover_reconcile_transaction,
}
use gpt_market_neutral_crypt.Commit.Recovery.Steps.{Done}
use gpt_market_neutral_crypt.Commit.Recovery.Underway.{
  Accepted, Underway, recover_staged, recover-Underway, plan-Accepted, plan-publication,
  admitted-verified,
}
use gpt_market_neutral_crypt.Commit.Recovery.Crash.{body_writes-AllApart, body_writes-AllReady}
use gpt_market_neutral_crypt.Commit.Recovery.Schedules.{write_all-Around}
use gpt_market_neutral_crypt.Commit.Recovery.Resume.{write_all-Done}
use gpt_market_neutral_crypt.Commit.Recovery.Published.{
  write_all-split, last_write-marker, sound-version, committed-verified, resume-intact,
}

module _ (sha : Canonical) (o : Others) where
  finish-inversion :
      (t : Transaction) (n : ℕ) (d d' : Disk)
      → finish sha o t (value tt, d) ≡ (value (recovered n false), d')
      → (cycle_is_complete sha o d t.cycle t.cadence true ≡ true)
        × (account_is sha o d t ≡ true)
        × (n ≡ t.cycle)
        × (d' ≡ record d { transaction = none_staged })
  unfolding finish
  finish-inversion t n d d' h =
      let a : cycle_is_complete sha o d t.cycle t.cadence true ≡ true = ground arith in
      let b : account_is sha o d t ≡ true = ground arith in
      let ends : ◌≡◌ {A = Outcome Result × Disk}
          (value (recovered t.cycle false), record d { transaction = none_staged })
          (value (recovered n false), d') =
        ground (arith, a, b, h) in
      (a, b, ground arith, sym (ap (λ (x : Outcome Result × Disk). x.1) ends))

  admitted-intro :
      (t : Transaction) (e : Event) (v : ℕ) (report : Artifact) (d : Disk)
      → Accepted sha o t e v report
      → verify_account_event_references sha.of_event
          (generations sha o t.cadence t.cycle d)
          d.events
          (some e)
        ≡ value tt
      → admitted sha o d t ≡ value (e, v)
  unfolding admitted
  admitted-intro t e v report d (valid, bound, named, _, _, _, _) refs =
      rw (valid, bound, named, refs) refl

  -- The disk behind the body of a publication, and behind the marker.
  publication-parts :
      (t : Transaction) (e : Event) (v : ℕ) (report : Artifact) (d d' : Disk)
      → write_all sha o t.cadence t.cycle (publication sha o t e v report) d ≡ (value tt, d')
      → (d1 : Disk) × (write_all sha o t.cadence t.cycle (body_writes sha o t e report) d
          ≡ (value tt, d1))
        × ((provenance : Artifact) × (d'
              ≡ record d1 { complete = present (completion sha o t e v report provenance) }))
  unfolding publication
  publication-parts t e v report d d' h =
      let (d1, body, last) =
        write_all-split sha o t.cadence t.cycle (body_writes sha o t e report) _ d d' h in
      (
        d1,
        body,
        last_write-marker sha o t e v report (lookup "runtime_provenance" t.artifacts) d1 d' last,
      )

  body_writes-event :
      (t : Transaction) (e : Event) (report : Artifact) (d : Disk)
      → All (λ (w : Write). Done sha o w d) (body_writes sha o t e report)
      → append_account_event sha.of_event d.others d.events e ≡ (value tt, d.events)
  unfolding body_writes
  body_writes-event t e report d all =
      (All-append_right (λ (w : Write). Done sha o w d) (outputs sha o (unreported sha o t)) _
        all.1).1.1.0.1

  -- With its marker in place, the transaction is admitted and closed.
  recover-closed :
      (t : Transaction) (e : Event) (v : ℕ) (report provenance : Artifact) (p : Protocol) (d : Disk)
      → Accepted sha o t e v report
      → d.transaction ≡ staged t
      → d.heartbeat_pending ≡ false
      → d.protocol ≡ some p
      → ltb t.cycle p.first_cycle ≡ false
      → e.kind ≡ reconcile
      → NoMarker e.event_id (reconcile_refs d.others.markers)
      → append_account_event sha.of_event d.others d.events e ≡ (value tt, d.events)
      → let after : Disk = record d {
        complete = present (completion sha o t e v report provenance);
      } in
        cycle_is_complete sha o after t.cycle t.cadence true ≡ true
        → account_is sha o after t ≡ true
        → recover_reconcile_transaction sha o after
          ≡ (value (recovered t.cycle true), record after { transaction = none_staged })
  unfolding continue completion
  recover-closed t e v report provenance p d accepted st quiet known late kind free appended
        complete same =
      let after : Disk = record d {
        complete = present (completion sha o t e v report provenance);
      } in
      let refs =
        committed-verified sha o t e v report provenance d (sound-version sha o t v accepted.0) kind
          free appended in
      let intact =
        complete-manifest sha o after p t.cycle t.cadence (completion sha o t e v report provenance)
          known late refl complete in
      recover_staged sha o t after st quiet
      ∙ ap (continue sha o after t) (admitted-intro t e v report after accepted refs)
      ∙ resume-intact sha o t e v (completion sha o t e v report provenance) after refl refl refl
          refl intact same

  -- A crash between the completion marker and the removal of the transaction is made good too: where the uninterrupted
  -- recovery succeeds, the next one finds its generation intact, reports the same cycle as already complete, and leaves the
  -- same disk. The protocol covers the cycle, the artifacts have distinct names, and the event is a reconcile event that no
  -- other generation declares.
  pub recover-committed :
      (d dm d' : Disk) (t : Transaction) (e : Event) (v n : ℕ) (ws : List Write) (p : Protocol)
      → d.transaction ≡ staged t
      → d.heartbeat_pending ≡ false
      → d.complete ≡ absent
      → d.protocol ≡ some p
      → p.first_cycle ≤ t.cycle
      → admitted sha o d t ≡ value (e, v)
      → plan sha o d t e v ≡ value ws
      → DistinctKeys t.artifacts
      → e.kind ≡ reconcile
      → NoMarker e.event_id (reconcile_refs d.others.markers)
      → write_all sha o t.cadence t.cycle ws d ≡ (value tt, dm)
      → recover_reconcile_transaction sha o d ≡ (value (recovered n false), d')
      → recover_reconcile_transaction sha o dm ≡ (value (recovered n true), d')
  recover-committed d dm d' t e v n ws p st quiet clear known first adm planned keys kind free h
        whole =
      let (report, accepted, line) = plan-Accepted sha o t e v d ws adm planned in
      let under : Underway sha o t e d =
        (st, quiet, clear, admitted-verified sha o t e v d clear adm, line) in
      let same = plan-publication sha o t e v report d ws accepted under planned in
      let all =
        subst (λ (xs : List Write). write_all sha o t.cadence t.cycle xs d ≡ (value tt, dm))
          (sym same) h in
      let ended =
        sym (ap (finish sha o t) all)
        ∙ sym (recover-Underway sha o t e v report d accepted under)
        ∙ whole in
      let (complete, account, cycle, closed) = finish-inversion t n dm d' ended in
      let (d1, body, (provenance, marked_now)) = publication-parts t e v report d dm all in
      let ready = body_writes-AllReady sha o t e report d clear kind free in
      let around =
        write_all-Around sha o t.cadence t.cycle (body_writes sha o t e report) d d1 ready body in
      let done =
        write_all-Done sha o t.cadence t.cycle (body_writes sha o t e report) d d1 ready
          (body_writes-AllApart sha o t e report keys) body in
      let free1 : NoMarker e.event_id (reconcile_refs d1.others.markers) = rw around.1 free in
      let again =
        recover-closed t e v report provenance p d1 accepted (around.2 ∙ st) (around.3 ∙ quiet)
          (around.4 ∙ known) (ground arith) kind free1 (body_writes-event t e report d1 done)
          (subst (λ (x : Disk). cycle_is_complete sha o x t.cycle t.cadence true ≡ true) marked_now
            complete)
          (subst (λ (x : Disk). account_is sha o x t ≡ true) marked_now account) in
      ap (recover_reconcile_transaction sha o) marked_now
      ∙ again
      ∙ ap (λ (x : Disk). (value (recovered t.cycle true), record x { transaction = none_staged }))
          (sym marked_now)
      ∙ ap (λ (m : ℕ). (value (recovered m true), record dm { transaction = none_staged }))
          (sym cycle)
      ∙ ap (λ (x : Disk). (value (recovered n true), x)) (sym closed)
