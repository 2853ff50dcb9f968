-- ===== src/Commit/Recovery/Outcomes.antt =====
-- How `recover_reconcile_transaction` of futures_fund/reconcile_commit.py ends: what a reported
-- success has verified, and what a raise leaves behind.
use gpt_market_neutral_crypt.Prelude.{
  ℕ, ◌≡◌, ◌≤◌, ◌<◌, ◌⊎◌, ◌∙◌, refl, String, Option, none, lookup, ltb, Bool, true, false, not, ◌&&◌,
  ◌||◌, some, List, arith, sym, ap, inl, inr, Bool-cases, Option-cases, Outcome, value, raised,
  opt_eq, opt_eq_iff, ◌==◌, if◌then◌else◌,
}
use gpt_market_neutral_crypt.Events.{Event}
use gpt_market_neutral_crypt.Commit.{
  Artifact, json, account_event_of, Protocol, Transaction, Canonical, Others, Complete,
  CompleteFile, absent, unreadable, present, TransactionFile, none_staged, malformed, staged, Disk,
}
use gpt_market_neutral_crypt.Commit.Completion.{
  cycle_is_complete, verify_completion_manifest, legacy_complete, marker_complete,
}
use gpt_market_neutral_crypt.Commit.Recovery.{
  Result, recovered, plan, publish, finish, marked, resume, admitted, continue,
  recover_reconcile_transaction, account_is, unstage,
}
use gpt_market_neutral_crypt.Commit.Writes.{Write}

module _ (sha : Canonical) (o : Others) where
  -- The protocol covers the cycle, and its marker is of this cycle and has a manifest that verifies.
  abbrev pub MarkerVerifies : Transaction → Disk → Protocol → Type 0
  MarkerVerifies t d p =
      (p.first_cycle ≤ t.cycle)
      × ((c : Complete) × (d.complete ≡ present c)
          × (c.cycle ≡ t.cycle)
          × (c.paper_only ≡ true)
          × (verify_completion_manifest sha o d t.cycle c t.cadence ≡ true))

  -- The report is all that the directory of a cycle from before the protocol has to show.
  abbrev pub ReportNames : Transaction → Disk → Type 0
  ReportNames t d =
      (report : String) × (lookup "report" d.files ≡ some (json report))
      × (o.reported_cycle report ≡ some t.cycle)

  abbrev pub Stands : Transaction → Disk → Option Protocol → Type 0
  Stands t d none = ReportNames t d
  Stands t d (some p) = MarkerVerifies t d p ⊎ ((t.cycle < p.first_cycle) × ReportNames t d)

  legacy-ReportNames :
      (t : Transaction) (d : Disk) → legacy_complete sha o d t.cycle ≡ true → ReportNames t d
  unfolding legacy_complete
  legacy-ReportNames t d h = go (lookup "report" d.files) refl
    where
      go : (m : Option Artifact) → lookup "report" d.files ≡ m → ReportNames t d
      go none there = absurd (ground arith)
      go (some (account_event_of e)) there = absurd (ground arith)
      go (some (json report)) there = elim (Option-cases (o.reported_cycle report)) [
        | inl unnamed ↦ absurd (ground arith)
        | inr (c, named) ↦
            let same : c ≡ t.cycle = ground arith in (report, there, named ∙ ap some same)
      ]

  marker-Verifies :
      (t : Transaction) (d : Disk) (required : Bool) (c : Complete)
      → marker_complete sha o d t.cycle t.cadence true required c ≡ true
      → (c.cycle ≡ t.cycle)
        × (c.paper_only ≡ true)
        × (verify_completion_manifest sha o d t.cycle c t.cadence ≡ true)
  unfolding marker_complete
  marker-Verifies t d required c h = ground arith

  complete-Stands :
      (t : Transaction) (d : Disk)
      → cycle_is_complete sha o d t.cycle t.cadence true ≡ true
      → Stands t d d.protocol
  unfolding cycle_is_complete
  complete-Stands t d h = go d.protocol refl
    where
      covered :
          (p : Protocol) (f : CompleteFile)
          → d.protocol ≡ some p
          → d.complete ≡ f
          → ltb t.cycle p.first_cycle ≡ false
          → MarkerVerifies t d p
      covered p absent known there late = absurd (ground arith)
      covered p unreadable known there late = absurd (ground arith)
      covered p (present c) known there late =
          let complete : marker_complete sha o d t.cycle t.cadence true p.manifest_required c
              ≡ true =
            ground arith in
          let (cycle, paper, verified) = marker-Verifies t d p.manifest_required c complete in
          (ground arith, (c, there, cycle, paper, verified))

      go : (m : Option Protocol) → d.protocol ≡ m → Stands t d m
      go none known = legacy-ReportNames t d (ground arith)
      go (some p) known = elim (Bool-cases (ltb t.cycle p.first_cycle)) [
        | inl early ↦ inr (ground arith, legacy-ReportNames t d (ground arith))
        | inr late ↦ inl (covered p d.complete known refl late)
      ]

  -- What stands behind a success of the transaction: the generation verifies and the account is the transaction's.
  abbrev pub Verified : Transaction → Disk → Bool → Disk → Type 0
  Verified t d false d0 = Stands t d0 d0.protocol × (account_is sha o d0 t ≡ true)
  Verified t d true d0 =
      (d0 ≡ d)
      × (account_is sha o d0 t ≡ true)
      × ((c : Complete) × (d.complete ≡ present c)
          × (c.commit_id ≡ some t.commit_id)
          × (c.cycle ≡ t.cycle)
          × (verify_completion_manifest sha o d t.cycle c t.cadence ≡ true))

  abbrev Success : Transaction → Disk → ℕ → Bool → Disk → Type 0
  Success t d n again d' =
      (n ≡ t.cycle)
      × ((d0 : Disk) × (d' ≡ record d0 { transaction = none_staged }) × Verified t d again d0)

  finish-Success :
      (t : Transaction) (d : Disk) (r : Outcome (Unit {0}) × Disk) (n : ℕ) (again : Bool)
      (d' : Disk)
      → finish sha o t r ≡ (value (recovered n again), d')
      → Success t d n again d'
  unfolding finish
  finish-Success t d (raised, d0) n again d' h = absurd (ground arith)
  finish-Success t d (value _, d0) n true d' h = absurd (ground arith)
  finish-Success t d (value _, d0) n false d' h =
      let a : cycle_is_complete sha o d0 t.cycle t.cadence true ≡ true = ground arith in
      let b : account_is sha o d0 t ≡ true = ground arith in
      let ends : ◌≡◌ {A = Outcome Result × Disk}
          (value (recovered t.cycle false), record d0 { transaction = none_staged })
          (value (recovered n false), d') =
        ground (arith, a, b, h) in
      (
        ground arith,
        (d0, sym (ap (λ (x : Outcome Result × Disk). x.1) ends), (complete-Stands t d0 a, b)),
      )

  publish-Success :
      (t : Transaction) (d : Disk) (ws : Outcome (List Write)) (n : ℕ) (again : Bool) (d' : Disk)
      → publish sha o d t ws ≡ (value (recovered n again), d')
      → Success t d n again d'
  unfolding publish
  publish-Success t d raised n again d' h = absurd (ground arith)
  publish-Success t d (value ws) n again d' h = finish-Success t d _ n again d' h

  -- The end of a generation that was there already.
  intact-Success :
      (t : Transaction) (d : Disk) (c : Complete) (n : ℕ) (again : Bool) (d' : Disk)
      → d.complete ≡ present c
      → opt_eq c.commit_id (some t.commit_id) ≡ true
      → (c.cycle == t.cycle) ≡ true
      → verify_completion_manifest sha o d t.cycle c t.cadence ≡ true
      → ◌≡◌ {A = Outcome Result × Disk}
          (if account_is sha o d t
            then (value (recovered t.cycle true), unstage sha o d)
            else (raised, d))
          (value (recovered n again), d')
      → Success t d n again d'
  intact-Success t d c n false d' there id number verified h = absurd (ground arith)
  intact-Success t d c n true d' there id number verified h =
      let b : account_is sha o d t ≡ true = ground arith in
      let ends : ◌≡◌ {A = Outcome Result × Disk}
          (value (recovered t.cycle true), record d { transaction = none_staged })
          (value (recovered n true), d') =
        ground (arith, b, h) in
      (
        ground arith,
        (
          d,
          sym (ap (λ (x : Outcome Result × Disk). x.1) ends),
          (
            refl,
            b,
            (c, there, (opt_eq_iff c.commit_id (some t.commit_id)).0 id, ground arith, verified),
          ),
        ),
      )

  marked-Success :
      (t : Transaction) (d : Disk) (e : Event) (v : ℕ) (c : Complete) (n : ℕ) (again : Bool)
      (d' : Disk)
      → d.complete ≡ present c
      → marked sha o d t e v c ≡ (value (recovered n again), d')
      → Success t d n again d'
  unfolding marked
  marked-Success t d e v c n again d' there h =
      elim (Bool-cases (not (opt_eq c.commit_id (some t.commit_id)) || not (c.cycle == t.cycle))) [
        | inl bad ↦ absurd (ground arith)
        | inr good ↦
            elim (Bool-cases
              (c.paper_only && verify_completion_manifest sha o d t.cycle c t.cadence)) [
                | inl intact ↦
                    intact-Success t d c n again d' there (ground arith) (ground arith)
                      (ground arith) (ground arith)
                | inr damaged ↦ publish-Success t d (plan sha o d t e v) n again d' (ground arith)
              ]
      ]

  resume-Success :
      (t : Transaction) (d : Disk) (e : Event) (v : ℕ) (n : ℕ) (again : Bool) (d' : Disk)
      → resume sha o d t e v ≡ (value (recovered n again), d')
      → Success t d n again d'
  unfolding resume
  resume-Success t d e v n again d' h = go d.complete refl
    where
      go : (f : CompleteFile) → d.complete ≡ f → Success t d n again d'
      go absent there = publish-Success t d (plan sha o d t e v) n again d' (ground arith)
      go unreadable there = absurd (ground arith)
      go (present c) there = marked-Success t d e v c n again d' there (ground arith)

  -- A recovery that reports success has reported the staged transaction's cycle and has removed the transaction, and the
  -- generation on the disk stands, with the transaction's account in place. One that was there already verifies by its
  -- manifest, under the same commit id and cycle, with nothing written. A new one verifies by the manifest of a marker of
  -- this cycle if the protocol covers the cycle; if no protocol file is there or the protocol starts at a later cycle, all
  -- that is known is that report.json names the cycle.
  pub recover-Verified :
      (d d' : Disk) (n : ℕ) (again : Bool)
      → recover_reconcile_transaction sha o d ≡ (value (recovered n again), d')
      → (t : Transaction) × (d.transaction ≡ staged t)
        × (n ≡ t.cycle)
        × ((d0 : Disk) × (d' ≡ record d0 { transaction = none_staged }) × Verified t d again d0)
  unfolding recover_reconcile_transaction continue
  recover-Verified d d' n again h = go d.transaction refl
    where
      run :
          (t : Transaction) (a : Outcome (Event × ℕ))
          → continue sha o d t a ≡ (value (recovered n again), d')
          → Success t d n again d'
      run t raised h = absurd (ground arith)
      run t (value (e, v)) h = resume-Success t d e v n again d' h

      go :
          (f : TransactionFile)
          → d.transaction ≡ f
          → (t : Transaction) × (d.transaction ≡ staged t)
            × (n ≡ t.cycle)
            × ((d0 : Disk) × (d' ≡ record d0 { transaction = none_staged }) × Verified t d again d0)
      go none_staged there = absurd (ground arith)
      go malformed there = absurd (ground arith)
      go (staged t) there =
          let (cycle, rest) = run t (admitted sha o d t) (ground arith) in (t, there, cycle, rest)
