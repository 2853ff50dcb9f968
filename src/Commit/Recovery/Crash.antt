-- ===== src/Commit/Recovery/Crash.antt =====
-- `recover_reconcile_transaction` of futures_fund/reconcile_commit.py after a crash in the midst of
-- an earlier recovery.
use gpt_market_neutral_crypt.Prelude.{
  NoKey, DistinctKeys, pop-NoKey, ℕ, zero, suc, ◌<◌, ◌≡◌, refl, false, List, [], ◌∷◌, ◌++◌, String,
  sym, ap, subst, ◌∙◌, All, length, Outcome, value, pop, take, drop, take-drop, take-append,
  All-take, All-append,
}
use gpt_market_neutral_crypt.Events.{Event, reconcile}
use gpt_market_neutral_crypt.Events.References.{reconcile_refs}
use gpt_market_neutral_crypt.Events.References.Pending.{NoMarker}
use gpt_market_neutral_crypt.Commit.{
  Artifact, Artifacts, Transaction, Canonical, Others, absent, staged, Disk,
}
use gpt_market_neutral_crypt.Commit.Recovery.{plan, admitted, finish, recover_reconcile_transaction}
use gpt_market_neutral_crypt.Commit.Writes.{
  Write, save_output, save_equity, save_ledger, save_event, outputs, equity_row, body_writes,
  publication, write_all,
}
use gpt_market_neutral_crypt.Commit.Recovery.Steps.{Apart}
use gpt_market_neutral_crypt.Commit.Recovery.Resume.{
  AllApart, AllReady, write-AllReady_kept, write_all-cons, write_all_resumed,
}
use gpt_market_neutral_crypt.Commit.Recovery.Underway.{
  Of, Accepted, Underway, recover-Underway, plan-Accepted, plan-publication, admitted-verified,
}
use gpt_market_neutral_crypt.Commit.Recovery.Underway.Kept.{write-Underway}

module _ (sha : Canonical) (o : Others) where
  -- A predicate of all outputs.
  outputs-All :
      (P : Write → Type 0) (d : Artifacts)
      → ((name : String) (v : Artifact) → P (save_output name v))
      → All P (outputs sha o d)
  unfolding outputs
  outputs-All P [] p = tt
  outputs-All P ((name, v) ∷ rest) p = (p name v, outputs-All P rest p)

  outputs-NoKey :
      (n : String) (x : Artifact) (d : Artifacts)
      → NoKey n d
      → All (λ (w : Write). Apart (save_output n x) w) (outputs sha o d)
  unfolding outputs
  outputs-NoKey n x [] h = tt
  outputs-NoKey n x ((m, v) ∷ rest) h = ((λ p. h.0 (sym p)), outputs-NoKey n x rest h.1)

  module _ (t : Transaction) (e : Event) (report : Artifact) where
    tail : List Write
    tail =
        save_equity (equity_row sha o t)
        ∷ save_ledger t.ledger
        ∷ save_event e
        ∷ save_output "report" report
        ∷ []

    outputs-AllApart :
        (d : Artifacts) → NoKey "report" d → DistinctKeys d → AllApart (outputs sha o d ++ tail)
    unfolding outputs tail
    outputs-AllApart [] n k = ((tt, (tt, (tt, tt))), ((tt, (tt, tt)), ((tt, tt), (tt, tt))))
    outputs-AllApart ((m, v) ∷ rest) n k = (
      All-append _ (outputs sha o rest) tail (outputs-NoKey m v rest k.0)
          (tt, (tt, (tt, (n.0, tt)))),
      outputs-AllApart rest n.1 k.1,
    )

    -- The writes before the completion marker have different targets.
    pub body_writes-AllApart : DistinctKeys t.artifacts → AllApart (body_writes sha o t e report)
    unfolding body_writes tail
    body_writes-AllApart k =
        let (n, distinct) = pop-NoKey "report" t.artifacts k in
        (
          All-append _ (outputs sha o (pop "report" t.artifacts)) tail
              (outputs-All _ (pop "report" t.artifacts) (λ name v. tt)) (tt, (tt, (tt, (tt, tt)))),
          outputs-AllApart (pop "report" t.artifacts) n distinct,
        )

    pub body_writes-AllReady :
        (d : Disk)
        → d.complete ≡ absent
        → e.kind ≡ reconcile
        → NoMarker e.event_id (reconcile_refs d.others.markers)
        → AllReady (body_writes sha o t e report) d
    unfolding body_writes
    body_writes-AllReady d clear k free = (
      tt,
      All-append _ (outputs sha o (pop "report" t.artifacts)) _
          (outputs-All _ (pop "report" t.artifacts) (λ name v. tt))
          (tt, (tt, ((clear, k, free), (tt, tt)))),
    )

    pub body_writes-Of : All (λ (w : Write). Of t e w) (body_writes sha o t e report)
    unfolding body_writes
    body_writes-Of = (
      refl,
      All-append _ (outputs sha o (pop "report" t.artifacts)) _
          (outputs-All _ (pop "report" t.artifacts) (λ name v. tt)) (tt, (tt, (refl, (tt, tt)))),
    )

  -- Writes of the transaction leave its recovery under way.
  pub write_all-Underway :
      (t : Transaction) (e : Event) (cadence : String) (cycle : ℕ) (ws : List Write) (d d' : Disk)
      → All (λ (w : Write). Of t e w) ws
      → AllReady ws d
      → Underway sha o t e d
      → write_all sha o cadence cycle ws d ≡ (value tt, d')
      → Underway sha o t e d'
  unfolding write_all
  write_all-Underway t e cadence cycle [] d d' own ready under h =
      rw (← ap (λ (x : Outcome (Unit {0}) × Disk). x.1) h) under
  write_all-Underway t e cadence cycle (w ∷ ws) d d' own ready under h =
      let (d1, first, rest) = write_all-cons sha o cadence cycle w ws d d' h in
      write_all-Underway t e cadence cycle ws d1 d' own.1
        (write-AllReady_kept sha o cadence cycle ws w d d1 ready.0 first ready.1)
        (write-Underway sha o t e w cadence cycle d d1 own.0 ready.0 under first) rest

  -- The first writes of a publication, short of the completion marker.
  pub publication-take :
      (t : Transaction) (e : Event) (v k : ℕ) (report : Artifact)
      → k < length (publication sha o t e v report)
      → take k (publication sha o t e v report) ≡ take k (body_writes sha o t e report)
  unfolding publication
  publication-take t e v k report h = take-append k (body_writes sha o t e report) _ h

  AllApart-take : (k : ℕ) (ws : List Write) → AllApart ws → AllApart (take k ws)
  unfolding take
  AllApart-take zero ws h = tt
  AllApart-take (suc k) [] h = tt
  AllApart-take (suc k) (w ∷ ws) h =
      (All-take (λ (x : Write). Apart w x) k ws h.0, AllApart-take k ws h.1)

  -- The same for the publication of an accepted transaction.
  pub publication_resumed :
      (t : Transaction) (e : Event) (v k : ℕ) (report : Artifact) (d d' : Disk)
      → Accepted sha o t e v report
      → Underway sha o t e d
      → DistinctKeys t.artifacts
      → e.kind ≡ reconcile
      → NoMarker e.event_id (reconcile_refs d.others.markers)
      → k < length (publication sha o t e v report)
      → write_all sha o t.cadence t.cycle (take k (publication sha o t e v report)) d
        ≡ (value tt, d')
      → recover_reconcile_transaction sha o d' ≡ recover_reconcile_transaction sha o d
  publication_resumed t e v k report d d' accepted under keys kind free short h =
      let all = publication sha o t e v report in
      let part = publication-take t e v k report short in
      let body = body_writes sha o t e report in
      let ready : AllReady (take k all) d =
        rw part (All-take _ k body (body_writes-AllReady t e report d under.2 kind free)) in
      let own : All (λ (w : Write). Of t e w) (take k all) =
        rw part (All-take _ k body (body_writes-Of t e report)) in
      let apart : AllApart (take k all) =
        rw part (AllApart-take k body (body_writes-AllApart t e report keys)) in
      let again =
        write_all_resumed sha o t.cadence t.cycle (take k all) (drop k all) d d' ready apart h in
      let same : write_all sha o t.cadence t.cycle all d'
          ≡ write_all sha o t.cadence t.cycle all d =
        subst
          (λ (ws : List Write).
            write_all sha o t.cadence t.cycle ws d' ≡ write_all sha o t.cadence t.cycle ws d)
          (take-drop k all) again in
      let under' = write_all-Underway t e t.cadence t.cycle (take k all) d d' own ready under h in
      recover-Underway sha o t e v report d' accepted under'
      ∙ ap (finish sha o t) same
      ∙ sym (recover-Underway sha o t e v report d accepted under)

  -- A recovery that a crash has cut short after any number of its durable writes, the completion marker not among them,
  -- is made good by the next one: it ends as the uninterrupted recovery, with the same result and the same disk. The
  -- artifacts have distinct names, and the event is a reconcile event that no other generation declares.
  pub recover-crash :
      (d d' : Disk) (t : Transaction) (e : Event) (v k : ℕ) (ws : List Write)
      → d.transaction ≡ staged t
      → d.heartbeat_pending ≡ false
      → d.complete ≡ absent
      → admitted sha o d t ≡ value (e, v)
      → plan sha o d t e v ≡ value ws
      → DistinctKeys t.artifacts
      → e.kind ≡ reconcile
      → NoMarker e.event_id (reconcile_refs d.others.markers)
      → k < length ws
      → write_all sha o t.cadence t.cycle (take k ws) d ≡ (value tt, d')
      → recover_reconcile_transaction sha o d' ≡ recover_reconcile_transaction sha o d
  recover-crash d d' t e v k ws st quiet clear adm planned keys kind free short h =
      let (report, accepted, line) = plan-Accepted sha o t e v d ws adm planned in
      let refs = admitted-verified sha o t e v d clear adm in
      let under : Underway sha o t e d = (st, quiet, clear, refs, line) in
      let same = plan-publication sha o t e v report d ws accepted under planned in
      publication_resumed t e v k report d d' accepted under keys kind free
        (subst (λ (xs : List Write). k < length xs) (sym same) short)
        (subst
          (λ (xs : List Write). write_all sha o t.cadence t.cycle (take k xs) d ≡ (value tt, d'))
          (sym same) h)
