-- ===== src/Commit/Stage/Admission.antt =====
-- What `stage_reconcile_transaction` of futures_fund/reconcile_commit.py stages is what its recovery admits.
use gpt_market_neutral_crypt.Prelude.{
  DistinctKeys, pop-assign, assign-DistinctKeys, ℕ, ◌≡◌, refl, true, false, not, none, some, List,
  String, arith, sym, ap, subst, ◌∙◌, inl, inr, Bool-cases, Option-cases, Outcome, value, raised,
  Outcome-cases, raise_if, >>=-eq-value, value-injective, opt_eq, opt_eq_iff, different, ◌==◌,
  lookup, assign, lookup-assign_self, lookup-assign_ne,
}
use gpt_market_neutral_crypt.Events.{Event, reconcile, load_account_events}
use gpt_market_neutral_crypt.Events.Chain.{NewId}
use gpt_market_neutral_crypt.Events.References.{verify_account_event_references}
use gpt_market_neutral_crypt.Events.Append.{prepare_account_event}
use gpt_market_neutral_crypt.Events.Append.Preparing.{prepare_account_event_lem}
use gpt_market_neutral_crypt.Commit.{
  json, account_event_of, Artifacts, Transaction, Canonical, Others, TransactionFile, none_staged,
  malformed, staged, Disk, current_account_sha256,
}
use gpt_market_neutral_crypt.Commit.Completion.{generation_root_sha256}
use gpt_market_neutral_crypt.Commit.Recovery.{sound, event_of, lineage, root_matches}
use gpt_market_neutral_crypt.Commit.Writes.{generations}
use gpt_market_neutral_crypt.Commit.Stage.{
  Proposal, Sources, ensure_protocol, reserved, provenance_of, durable, equity_row, body, sealed,
  event_intent, intend, stage_unlocked, staged_on, staged_under, expectation,
  stage_reconcile_transaction,
}

module _ (sha : Canonical) (o : Others) (s : Sources) where
  -- What a successful staging has done.
  abbrev pub Staged : String → Proposal → Disk → Transaction → Disk → Type 0
  Staged commit_id p d t d' =
      (directive : String) × (expectation sha o s p d ≡ value directive)
      × (intend sha o s commit_id p directive (ensure_protocol p.cycle d) ≡ value t)
      × (d.heartbeat_pending ≡ false)
      × (d' ≡ record (ensure_protocol p.cycle d) { transaction = staged t })

  staged_on-eq :
      (d : Disk) (r : Outcome Transaction) (t : Transaction) (d' : Disk)
      → staged_on sha o s d r ≡ (value t, d')
      → (r ≡ value t) × (d' ≡ record d { transaction = staged t })
  staged_on-eq d raised t d' h = absurd (ground arith)
  staged_on-eq d (value u) t d' h =
      let same : u ≡ t = value-injective (ap (λ (x : Outcome Transaction × Disk). x.0) h) in
      (
        ap value same,
        sym (ap (λ (x : Outcome Transaction × Disk). x.1) h)
            ∙ ap (λ (x : Transaction). record d { transaction = staged x }) same,
      )

  unlocked-Staged :
      (commit_id : String) (p : Proposal) (directive : String) (d : Disk) (t : Transaction)
      (d' : Disk)
      → stage_unlocked sha o s commit_id p directive d ≡ (value t, d')
      → (intend sha o s commit_id p directive (ensure_protocol p.cycle d) ≡ value t)
        × (d.heartbeat_pending ≡ false)
        × (d' ≡ record (ensure_protocol p.cycle d) { transaction = staged t })
  unfolding stage_unlocked
  unlocked-Staged commit_id p directive d t d' h = go d.transaction refl
    where
      go :
          (f : TransactionFile)
          → d.transaction ≡ f
          → (intend sha o s commit_id p directive (ensure_protocol p.cycle d) ≡ value t)
            × (d.heartbeat_pending ≡ false)
            × (d' ≡ record (ensure_protocol p.cycle d) { transaction = staged t })
      go malformed there = absurd (ground arith)
      go (staged u) there = absurd (ground arith)
      go none_staged there = elim (Bool-cases d.heartbeat_pending) [
        | inl both ↦ absurd (ground arith)
        | inr quiet ↦
            let (made, after) =
              staged_on-eq (ensure_protocol p.cycle d)
                (intend sha o s commit_id p directive (ensure_protocol p.cycle d)) t d'
                (ground arith) in
            (made, quiet, after)
      ]

  pub stage-Staged :
      (commit_id : String) (p : Proposal) (d : Disk) (t : Transaction) (d' : Disk)
      → stage_reconcile_transaction sha o s commit_id p d ≡ (value t, d')
      → Staged commit_id p d t d'
  unfolding stage_reconcile_transaction staged_under
  stage-Staged commit_id p d t d' h = elim (Outcome-cases (expectation sha o s p d)) [
    | inl f ↦ absurd (ground arith)
    | inr (directive, f) ↦
        let (made, quiet, after) = unlocked-Staged commit_id p directive d t d' (ground arith) in
        (directive, f, made, quiet, after)
  ]

  -- The protocol file apart, `ensure_protocol` leaves the disk.
  pub ensure_protocol-rest :
      (cycle : ℕ) (d : Disk)
      → (ensure_protocol cycle d).others ≡ d.others
        × (ensure_protocol cycle d).events ≡ d.events
        × (ensure_protocol cycle d).complete ≡ d.complete
        × (ensure_protocol cycle d).account ≡ d.account
        × (ensure_protocol cycle d).heartbeat_pending ≡ d.heartbeat_pending
  unfolding ensure_protocol
  ensure_protocol-rest cycle d = elim (Option-cases d.protocol) [
    | inl f ↦ rw f (refl, refl, refl, refl, refl)
    | inr (p, f) ↦ rw f (refl, refl, refl, refl, refl)
  ]

  opt_eq_refl : (a : String) → opt_eq (some a) (some a) ≡ true
  opt_eq_refl a = (opt_eq_iff (some a) (some a)).1 refl

  sealed-sound :
      (commit_id : String) (p : Proposal) (directive : String) (artifacts : Artifacts)
      (root : String) (e : Event)
      → (p.cycle == 0) ≡ false
      → sound sha o (sealed sha o s (body sha o s commit_id p directive artifacts root e)) ≡ value 4
  unfolding sound sealed body
  sealed-sound commit_id p directive artifacts root e positive = rw (opt_eq_refl, positive) refl

  sealed-event :
      (commit_id : String) (p : Proposal) (directive : String) (artifacts : Artifacts)
      (root : String) (e : Event)
      → event_of sha o (
          lookup "account_event"
            (sealed sha o s (body sha o s commit_id p directive artifacts root e)).artifacts)
        ≡ value e
  unfolding event_of sealed body
  sealed-event commit_id p directive artifacts root e =
      rw (lookup-assign_self "account_event" (account_event_of e) artifacts) refl

  durable-unreserved :
      (p : Proposal) (provenance : String)
      → reserved p.artifacts ≡ false
      → lookup "account_event" (durable p provenance) ≡ none
  unfolding durable reserved
  durable-unreserved p provenance h =
      lookup-assign_ne "runtime_provenance" "account_event" (json provenance)
        (assign "account_state" (json p.account) p.artifacts)
        (different "account_event" "runtime_provenance" refl)
      ∙ lookup-assign_ne "account_state" "account_event" (json p.account) p.artifacts
          (different "account_event" "account_state" refl)
      ∙ ground arith

  sealed-root :
      (commit_id : String) (p : Proposal) (directive : String) (artifacts : Artifacts)
      (root : String) (e : Event)
      → lookup "account_event" artifacts ≡ none
      → e.generation_root_sha256 ≡ some root
      → generation_root_sha256 sha o commit_id p.cycle p.cadence artifacts p.ledger
          (equity_row sha o s p)
        ≡ value root
      → root_matches sha o
          (sealed sha o s (body sha o s commit_id p directive artifacts root e))
          e
          4
        ≡ value tt
  unfolding root_matches sealed body
  sealed-root commit_id p directive artifacts root e free bound found =
      rw (pop-assign "account_event" (account_event_of e) artifacts free, found, bound, opt_eq_refl)
        refl

  sealed-report :
      (commit_id : String) (p : Proposal) (directive : String) (root : String) (e : Event)
      → lookup "report"
          (sealed sha o s
            (body sha o s commit_id p directive (durable p (provenance_of s p)) root e)).artifacts
        ≡ lookup "report" p.artifacts
  unfolding sealed body durable
  sealed-report commit_id p directive root e =
      let state = assign "account_state" (json p.account) p.artifacts in
      lookup-assign_ne "account_event" "report" (account_event_of e) (durable p (provenance_of s p))
        (different "report" "account_event" refl)
      ∙ lookup-assign_ne "runtime_provenance" "report" (json (provenance_of s p)) state
          (different "report" "runtime_provenance" refl)
      ∙ lookup-assign_ne "account_state" "report" (json p.account) p.artifacts
          (different "report" "account_state" refl)

  sealed-DistinctKeys :
      (commit_id : String) (p : Proposal) (directive : String) (root : String) (e : Event)
      → DistinctKeys p.artifacts
      → DistinctKeys
          (sealed sha o s
            (body sha o s commit_id p directive (durable p (provenance_of s p)) root e)).artifacts
  unfolding sealed body durable
  sealed-DistinctKeys commit_id p directive root e k =
      assign-DistinctKeys "account_event" (account_event_of e) (durable p (provenance_of s p)) (
        assign-DistinctKeys "runtime_provenance" (json (provenance_of s p)) _
          (assign-DistinctKeys "account_state" (json p.account) p.artifacts k))

  pub expectation-lineage :
      (p : Proposal) (d : Disk) (directive target : String)
      → expectation sha o s p d ≡ value directive
      → ((p.cycle == 0) ≡ false)
        × (lineage sha o d.account (some p.expected_base_account_sha256) target ≡ value tt)
  unfolding expectation lineage
  expectation-lineage p d directive target h =
      let (_, positive, h1) = >>=-eq-value (raise_if (p.cycle == 0)) _ h in
      let (_, known, h2) =
        >>=-eq-value (s.directives p.artifacts p.cycle p.directive_expectation) _ h1 in
      let (_, same, _) =
        >>=-eq-value
          (raise_if (not (opt_eq (current_account_sha256 sha d) p.expected_base_account_sha256))) _
          h2 in
      (ground arith, ground arith)

  -- What `intend` has made.
  abbrev pub Intended : String → Proposal → Disk → Transaction → Event → Type 0
  Intended commit_id p d t e =
      (sound sha o t ≡ value 4)
      × (event_of sha o (lookup "account_event" t.artifacts) ≡ value e)
      × (root_matches sha o t e 4 ≡ value tt)
      × (e.event_id ≡ some commit_id)
      × (e.kind ≡ reconcile)
      × (t.cadence ≡ p.cadence)
      × (t.cycle ≡ p.cycle)
      × (t.ledger ≡ p.ledger)
      × (lookup "report" t.artifacts ≡ lookup "report" p.artifacts)
      × (DistinctKeys p.artifacts → DistinctKeys t.artifacts)
      × (t.base_account_sha256 ≡ some p.expected_base_account_sha256)
      × (t.account ≡ p.account)
      × ((events : List Event) × (load_account_events sha.of_event d.events ≡ value events)
          × (NewId e.event_id events
              → verify_account_event_references sha.of_event (generations sha o p.cadence p.cycle d)
                  d.events (some e)
                ≡ value tt))

  pub intend-Intended :
      (commit_id : String) (p : Proposal) (directive : String) (d : Disk) (t : Transaction)
      → (p.cycle == 0) ≡ false
      → intend sha o s commit_id p directive d ≡ value t
      → (e : Event) × Intended commit_id p d t e
  unfolding intend sealed body
  intend-Intended commit_id p directive d t positive h =
      let artifacts = durable p (provenance_of s p) in
      let (_, valid, h1) =
        >>=-eq-value (raise_if (not (o.provenance_valid (provenance_of s p)))) _ h in
      let (_, named, h2) = >>=-eq-value (raise_if (reserved p.artifacts)) _ h1 in
      let (root, found, h3) =
        >>=-eq-value
          (generation_root_sha256 sha o commit_id p.cycle p.cadence artifacts p.ledger
            (equity_row sha o s p))
          _ h2 in
      let (e, prepared, h4) =
        >>=-eq-value
          (prepare_account_event sha.of_event (generations sha o p.cadence p.cycle d) d.events
            (event_intent sha o s commit_id p root))
          _ h3 in
      let same : sealed sha o s (body sha o s commit_id p directive artifacts root e) ≡ t =
        value-injective h4 in
      let ((_, id, kind, _, bound, _), chain) =
        prepare_account_event_lem sha.of_event (generations sha o p.cadence p.cycle d) d.events
          (event_intent sha o s commit_id p root) e prepared in
      let unreserved : reserved p.artifacts ≡ false = ground arith in
      let free = durable-unreserved p (provenance_of s p) unreserved in
      let (events, load, _, pending) = chain in
      (
        e,
        subst (λ (x : Transaction). Intended commit_id p d x e) same
            (
              sealed-sound commit_id p directive artifacts root e positive,
              sealed-event commit_id p directive artifacts root e,
              sealed-root commit_id p directive artifacts root e free bound found,
              id,
              kind,
              refl,
              refl,
              refl,
              sealed-report commit_id p directive root e,
              sealed-DistinctKeys commit_id p directive root e,
              refl,
              refl,
              (events, load, pending),
            ),
      )
