-- ===== src/Commit/Recovery/Schedules.antt =====
-- Any number of crashes of `recover_reconcile_transaction` of futures_fund/reconcile_commit.py, and what readers of the
-- generation see between them.
use gpt_market_neutral_crypt.Prelude.{
  DistinctKeys, ℕ, ◌<◌, ◌≤◌, ◌≡◌, refl, Bool, false, ltb, List, [], ◌∷◌, String, arith, sym, ap,
  subst, ◌∙◌, All, length, Outcome, value, some, take, All-take,
}
use gpt_market_neutral_crypt.Events.{Event, reconcile}
use gpt_market_neutral_crypt.Events.References.{reconcile_refs}
use gpt_market_neutral_crypt.Events.References.Pending.{NoMarker}
use gpt_market_neutral_crypt.Commit.{
  Artifact, Transaction, Canonical, Others, absent, staged, Disk, Protocol,
}
use gpt_market_neutral_crypt.Commit.Completion.{cycle_is_complete}
use gpt_market_neutral_crypt.Commit.Recovery.{plan, admitted, recover_reconcile_transaction}
use gpt_market_neutral_crypt.Commit.Writes.{Write, publication, body_writes, write_all}
use gpt_market_neutral_crypt.Commit.Recovery.Steps.Keeping.{Around, write-Around}
use gpt_market_neutral_crypt.Commit.Recovery.Resume.{AllReady, write-AllReady_kept, write_all-cons}
use gpt_market_neutral_crypt.Commit.Recovery.Underway.{
  Of, Accepted, Underway, plan-Accepted, plan-publication, admitted-verified,
}
use gpt_market_neutral_crypt.Commit.Recovery.Crash.{
  publication-take, publication_resumed, body_writes-AllReady, body_writes-Of, write_all-Underway,
}

module _ (sha : Canonical) (o : Others) where
  -- The disks that recoveries of a transaction reach, each cut short by a crash in front of the completion marker; `ws`
  -- are the writes that each of them sets out to do.
  pub data Crashed (t : Transaction) (ws : List Write) : Disk → Disk → Type 0 where
    never : (d : Disk) → Crashed t ws d d
    once_more :
        (d d1 d2 : Disk) (k : ℕ)
        → Crashed t ws d d1
        → k < length ws
        → write_all sha o t.cadence t.cycle (take k ws) d1 ≡ (value tt, d2)
        → Crashed t ws d d2

  pub write_all-Around :
      (cadence : String) (cycle : ℕ) (ws : List Write) (d d' : Disk)
      → AllReady ws d
      → write_all sha o cadence cycle ws d ≡ (value tt, d')
      → Around d d'
  unfolding write_all
  write_all-Around cadence cycle [] d d' ready h =
      subst (Around d) (ap (λ (x : Outcome (Unit {0}) × Disk). x.1) h)
        (refl, refl, refl, refl, refl)
  write_all-Around cadence cycle (w ∷ ws) d d' ready h =
      let (d1, first, rest) = write_all-cons sha o cadence cycle w ws d d' h in
      let a = write-Around sha o cadence cycle w d d1 ready.0 first in
      let b =
        write_all-Around cadence cycle ws d1 d'
          (write-AllReady_kept sha o cadence cycle ws w d d1 ready.0 first ready.1) rest in
      (b.0 ∙ a.0, b.1 ∙ a.1, b.2 ∙ a.2, b.3 ∙ a.3, b.4 ∙ a.4)

  -- One crash: what it leaves.
  crash-Around :
      (t : Transaction) (e : Event) (v k : ℕ) (report : Artifact) (d d' : Disk)
      → d.complete ≡ absent
      → e.kind ≡ reconcile
      → NoMarker e.event_id (reconcile_refs d.others.markers)
      → k < length (publication sha o t e v report)
      → write_all sha o t.cadence t.cycle (take k (publication sha o t e v report)) d
        ≡ (value tt, d')
      → Around d d'
  crash-Around t e v k report d d' clear kind free short h =
      let part = publication-take sha o t e v k report short in
      let ready : AllReady (take k (publication sha o t e v report)) d = rw part (
        All-take _ k (body_writes sha o t e report)
          (body_writes-AllReady sha o t e report d clear kind free)) in
      write_all-Around t.cadence t.cycle (take k (publication sha o t e v report)) d d' ready h

  -- The next one finds the transaction under way.
  crash-Underway :
      (t : Transaction) (e : Event) (v k : ℕ) (report : Artifact) (d d' : Disk)
      → Underway sha o t e d
      → e.kind ≡ reconcile
      → NoMarker e.event_id (reconcile_refs d.others.markers)
      → k < length (publication sha o t e v report)
      → write_all sha o t.cadence t.cycle (take k (publication sha o t e v report)) d
        ≡ (value tt, d')
      → Underway sha o t e d'
  crash-Underway t e v k report d d' under kind free short h =
      let part = publication-take sha o t e v k report short in
      let body = body_writes sha o t e report in
      let all = publication sha o t e v report in
      let ready : AllReady (take k all) d =
        rw part (All-take _ k body (body_writes-AllReady sha o t e report d under.2 kind free)) in
      let own : All (λ (w : Write). Of t e w) (take k all) =
        rw part (All-take _ k body (body_writes-Of sha o t e report)) in
      write_all-Underway sha o t e t.cadence t.cycle (take k all) d d' own ready under h

  pub crashes_invariant :
      (t : Transaction) (e : Event) (v : ℕ) (report : Artifact) (d d' : Disk)
      → Accepted sha o t e v report
      → Underway sha o t e d
      → DistinctKeys t.artifacts
      → e.kind ≡ reconcile
      → NoMarker e.event_id (reconcile_refs d.others.markers)
      → Crashed t (publication sha o t e v report) d d'
      → Around d d'
        × Underway sha o t e d'
        × (recover_reconcile_transaction sha o d' ≡ recover_reconcile_transaction sha o d)
  crashes_invariant t e v report d _ accepted under keys kind free (never _) =
      ((refl, refl, refl, refl, refl), under, refl)
  crashes_invariant t e v report d d2 accepted under keys kind free
        (once_more _ d1 _ k before short h) =
      let (around, under1, same) =
        crashes_invariant t e v report d d1 accepted under keys kind free before in
      let free1 : NoMarker e.event_id (reconcile_refs d1.others.markers) = rw around.1 free in
      let a = crash-Around t e v k report d1 d2 under1.2 kind free1 short h in
      (
        (a.0 ∙ around.0, a.1 ∙ around.1, a.2 ∙ around.2, a.3 ∙ around.3, a.4 ∙ around.4),
        crash-Underway t e v k report d1 d2 under1 kind free1 short h,
        publication_resumed sha o t e v k report d1 d2 accepted under1 keys kind free1 short h
            ∙ same,
      )

  -- Recovery is atomic under any number of crashes in front of the completion marker: wherever each of them fell, the
  -- recovery that runs through ends as one that was never interrupted, with the same result and the same disk. The
  -- artifacts have distinct names, and the event is a reconcile event that no other generation declares.
  pub recover-crashes :
      (d d' : Disk) (t : Transaction) (e : Event) (v : ℕ) (ws : List Write)
      → d.transaction ≡ staged t
      → d.heartbeat_pending ≡ false
      → d.complete ≡ absent
      → admitted sha o d t ≡ value (e, v)
      → plan sha o d t e v ≡ value ws
      → DistinctKeys t.artifacts
      → e.kind ≡ reconcile
      → NoMarker e.event_id (reconcile_refs d.others.markers)
      → Crashed t ws d d'
      → recover_reconcile_transaction sha o d' ≡ recover_reconcile_transaction sha o d
  recover-crashes d d' t e v ws st quiet clear adm planned keys kind free crashed =
      let (report, accepted, line) = plan-Accepted sha o t e v d ws adm planned in
      let under : Underway sha o t e d =
        (st, quiet, clear, admitted-verified sha o t e v d clear adm, line) in
      let same = plan-publication sha o t e v report d ws accepted under planned in
      let crashed' = subst (λ (xs : List Write). Crashed t xs d d') (sym same) crashed in
      (crashes_invariant t e v report d d' accepted under keys kind free crashed').2

  cycle_is_complete-absent :
      (d : Disk) (p : Protocol) (cycle : ℕ) (cadence : String) (strict : Bool)
      → d.protocol ≡ some p
      → ltb cycle p.first_cycle ≡ false
      → d.complete ≡ absent
      → cycle_is_complete sha o d cycle cadence strict ≡ false
  unfolding cycle_is_complete
  cycle_is_complete-absent d p cycle cadence strict known late clear = rw (known, late, clear) refl

  -- Between crashes in front of the completion marker no reader takes the cycle for complete, if the protocol covers it.
  pub crashes-incomplete :
      (d d' : Disk) (t : Transaction) (e : Event) (v : ℕ) (ws : List Write) (p : Protocol)
      (strict : Bool)
      → d.transaction ≡ staged t
      → d.heartbeat_pending ≡ false
      → d.complete ≡ absent
      → d.protocol ≡ some p
      → p.first_cycle ≤ t.cycle
      → admitted sha o d t ≡ value (e, v)
      → plan sha o d t e v ≡ value ws
      → DistinctKeys t.artifacts
      → e.kind ≡ reconcile
      → NoMarker e.event_id (reconcile_refs d.others.markers)
      → Crashed t ws d d'
      → cycle_is_complete sha o d' t.cycle t.cadence strict ≡ false
  crashes-incomplete d d' t e v ws p strict st quiet clear known late adm planned keys kind free
        crashed =
      let (report, accepted, line) = plan-Accepted sha o t e v d ws adm planned in
      let under : Underway sha o t e d =
        (st, quiet, clear, admitted-verified sha o t e v d clear adm, line) in
      let same = plan-publication sha o t e v report d ws accepted under planned in
      let crashed' = subst (λ (xs : List Write). Crashed t xs d d') (sym same) crashed in
      let around = (crashes_invariant t e v report d d' accepted under keys kind free crashed').0 in
      cycle_is_complete-absent d' p t.cycle t.cadence strict (around.4 ∙ known) (ground arith)
        (around.0 ∙ clear)
