-- ===== src/Commit/Recovery/Steps.antt =====
-- One write of the recovery of futures_fund/reconcile_commit.py, done again: what a write leaves on
-- the disk.
pub mod Keeping
use gpt_market_neutral_crypt.Prelude.{
  ℕ, ◌≡◌, ◌≢◌, refl, Bool, true, false, Option, none, some, List, [], ◌∷◌, String, arith, sym, ap,
  subst, ◌∙◌, ◌⊎◌, inl, inr, Bool-cases, Outcome, value, raised, Outcome-cases, value-injective,
  value-ne-raised, >>=-eq-value, if◌then◌else◌, lookup, assign, lookup-assign_self,
  lookup-assign_ne, assign_again,
}
use gpt_market_neutral_crypt.Events.{Event, EventKind, reconcile, Line, load_account_events}
use gpt_market_neutral_crypt.Events.References.{
  Generations, Marker, reconcile_refs, verify_account_event_references,
}
use gpt_market_neutral_crypt.Events.References.Pending.{NoMarker, verify_published}
use gpt_market_neutral_crypt.Events.Append.{append_account_event}
use gpt_market_neutral_crypt.Events.Append.Growth.{append_grows, append_replay, append_verified}
use gpt_market_neutral_crypt.Ledger.{LedgerRow, EquityRow, RowLine, append_ledger, record_equity}
use gpt_market_neutral_crypt.Ledger.Rows.{file_of}
use gpt_market_neutral_crypt.Ledger.Appending.{append_ledger_replay}
use gpt_market_neutral_crypt.Ledger.Equity.{record_equity_replay}
use gpt_market_neutral_crypt.Commit.{
  Artifact, Artifacts, Canonical, Others, Complete, CompleteFile, absent, present, Disk,
}
use gpt_market_neutral_crypt.Commit.Writes.{
  Write, save_account, save_output, save_equity, save_ledger, save_event, save_complete, stop,
  rewrite, generations, write,
}

-- Appending a reconcile event that no generation declares, once more, changes nothing.
append_again :
    (digest : Event → String) (disk : Generations) (lines lines' : List Line) (e : Event)
    → e.kind ≡ reconcile
    → NoMarker e.event_id (reconcile_refs disk.markers)
    → append_account_event digest disk lines e ≡ (value tt, lines')
    → append_account_event digest disk lines' e ≡ (value tt, lines')
append_again digest disk lines lines' e k free h =
    let v = append_verified digest disk lines lines' e h in
    let (events, load, cases) = append_grows digest disk lines lines' e h in
    append_replay digest disk disk lines lines' e h (elim cases [
      | inl (same, _) ↦ rw same v
      | inr (load', chain) ↦
          verify_published digest disk lines lines' events e load load' chain.2 k free v
    ])

rewrite-value :
    {A : Type 0} (m : Outcome (List A)) (lines : List (RowLine A))
    → rewrite m ≡ value lines
    → (rows : List A) × (m ≡ value rows) × (lines ≡ file_of rows)
unfolding rewrite
rewrite-value raised lines h = absurd (value-ne-raised (sym h))
rewrite-value (value rows) lines h = (rows, refl, sym (value-injective h))

-- Two writes of different targets, before the completion marker.
abbrev pub Apart : Write → Write → Type 0
Apart _ (save_complete c) = ⊥
Apart (save_complete c) _ = ⊥
Apart (save_account a) (save_account b) = ⊥
Apart (save_output m v) (save_output n x) = m ≢ n
Apart (save_equity r) (save_equity s) = ⊥
Apart (save_ledger r) (save_ledger s) = ⊥
Apart (save_event e) (save_event f) = ⊥
Apart _ _ = Unit

-- A write of the body; its event is a reconcile event that no other generation declares, before its marker.
abbrev pub Ready : Write → Disk → Type 0
Ready (save_event e) d =
    (d.complete ≡ absent)
    × (e.kind ≡ reconcile)
    × NoMarker e.event_id (reconcile_refs d.others.markers)
Ready (save_complete c) d = ⊥
Ready _ d = Unit

module _ (sha : Canonical) (o : Others) where
  -- What a write of the body leaves on the disk.
  abbrev pub Done : Write → Disk → Type 0
  Done (save_account a) d = d.account ≡ some a
  Done (save_output name v) d = (o.is_artifact_name name ≡ true) × (lookup name d.files ≡ some v)
  Done (save_equity r) d =
      (rows : List EquityRow) × (d.equity ≡ file_of rows) × (record_equity r d.equity ≡ value rows)
  Done (save_ledger r) d =
      (rows : List LedgerRow) × (d.ledger ≡ file_of rows) × (append_ledger r d.ledger ≡ value rows)
  Done (save_event e) d =
      (d.complete ≡ absent)
      × (append_account_event sha.of_event d.others d.events e ≡ (value tt, d.events))
  Done (save_complete c) d = ⊥
  Done stop d = ⊥

  module _ (cadence : String) (cycle : ℕ) where
    pub generations-absent :
        (d : Disk) → d.complete ≡ absent → generations sha o cadence cycle d ≡ d.others
    unfolding generations
    generations-absent d a = rw a refl

    -- What a write that succeeded has done.
    abbrev pub Wrote : Write → Disk → Disk → Type 0
    Wrote (save_account a) d d' = d' ≡ record d { account = some a }
    Wrote (save_output name v) d d' =
        (o.is_artifact_name name ≡ true) × (d' ≡ record d { files = assign name v d.files })
    Wrote (save_equity r) d d' =
        (rows : List EquityRow) × (record_equity r d.equity ≡ value rows)
        × (d' ≡ record d { equity = file_of rows })
    Wrote (save_ledger r) d d' =
        (rows : List LedgerRow) × (append_ledger r d.ledger ≡ value rows)
        × (d' ≡ record d { ledger = file_of rows })
    Wrote (save_event e) d d' =
        (lines : List Line) × (append_account_event sha.of_event (generations sha o cadence cycle d)
            d.events e
          ≡ (value tt, lines))
        × (d' ≡ record d { events = lines })
    Wrote (save_complete c) d d' = d' ≡ record d { complete = present c }
    Wrote stop d d' = ⊥

    pub write-Wrote :
        (w : Write) (d d' : Disk) → write sha o cadence cycle w d ≡ (value tt, d') → Wrote w d d'
    unfolding write
    write-Wrote (save_account a) d d' h = sym (ap (λ (x : Outcome (Unit {0}) × Disk). x.1) h)
    write-Wrote (save_output name v) d d' h = elim (Bool-cases (o.is_artifact_name name)) [
      | inl t ↦ (t, ground arith)
      | inr f ↦ absurd (ground arith)
    ]
    write-Wrote (save_equity r) d d' h = elim (Outcome-cases (rewrite (record_equity r d.equity))) [
      | inl f ↦ absurd (ground arith)
      | inr (lines, t) ↦
          let (rows, found, file) = rewrite-value (record_equity r d.equity) lines t in
          (rows, found, ground arith)
    ]
    write-Wrote (save_ledger r) d d' h = elim (Outcome-cases (rewrite (append_ledger r d.ledger))) [
      | inl f ↦ absurd (ground arith)
      | inr (lines, t) ↦
          let (rows, found, file) = rewrite-value (append_ledger r d.ledger) lines t in
          (rows, found, ground arith)
    ]
    write-Wrote (save_event e) d d' h =
        let appended =
          append_account_event sha.of_event (generations sha o cadence cycle d) d.events e in
        (
          appended.1,
          ap (λ (x : Outcome (Unit {0}) × Disk). (x.0, appended.1)) h,
          sym (ap (λ (x : Outcome (Unit {0}) × Disk). x.1) h),
        )
    write-Wrote (save_complete c) d d' h = sym (ap (λ (x : Outcome (Unit {0}) × Disk). x.1) h)
    write-Wrote stop d d' h = absurd (ground arith)

    -- What a write has done stays done.
    pub Wrote-Done : (w : Write) (d d' : Disk) → Ready w d → Wrote w d d' → Done w d'
    Wrote-Done (save_account a) d d' ready h = ap (λ (x : Disk). x.account) h
    Wrote-Done (save_output name v) d d' ready (ok, h) =
        (ok, ap (λ (x : Disk). lookup name x.files) h ∙ lookup-assign_self name v d.files)
    Wrote-Done (save_equity r) d d' ready (rows, found, h) =
        let file : d'.equity ≡ file_of rows = ap (λ (x : Disk). x.equity) h in
        (rows, file, rw file (record_equity_replay r d.equity rows found))
    Wrote-Done (save_ledger r) d d' ready (rows, found, h) =
        let file : d'.ledger ≡ file_of rows = ap (λ (x : Disk). x.ledger) h in
        (rows, file, rw file (append_ledger_replay r d.ledger rows found))
    Wrote-Done (save_event e) d d' (clear, k, free) (lines, found, h) =
        let again =
          append_again sha.of_event d.others d.events lines e k free
            (rw (← generations-absent d clear) found) in
        subst (Done (save_event e)) (sym h) (clear, again)
    Wrote-Done (save_complete c) d d' ready h = absurd ready
    Wrote-Done stop d d' ready h = absurd h

    pub write-Done :
        (w : Write) (d d' : Disk)
        → Ready w d
        → write sha o cadence cycle w d ≡ (value tt, d')
        → Done w d'
    write-Done w d d' ready h = Wrote-Done w d d' ready (write-Wrote w d d' h)

    -- A write that is done changes nothing.
    pub Done-write :
        (w : Write) (d : Disk) → Done w d → write sha o cadence cycle w d ≡ (value tt, d)
    unfolding write rewrite
    Done-write (save_account a) d h =
        ap (λ (x : Option String). (value tt, record d { account = x })) (sym h)
    Done-write (save_output name v) d (ok, h) = rw (ok, assign_again name v d.files h) refl
    Done-write (save_equity r) d (rows, file, again) = ground (arith, again, file)
    Done-write (save_ledger r) d (rows, file, again) = ground (arith, again, file)
    Done-write (save_event e) d (clear, again) = rw (generations-absent d clear, again) refl
    Done-write (save_complete c) d h = absurd h
    Done-write stop d h = absurd h
