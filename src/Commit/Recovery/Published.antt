-- ===== src/Commit/Recovery/Published.antt =====
-- The completion marker of futures_fund/reconcile_commit.py as the next recovery finds it.
use gpt_market_neutral_crypt.Prelude.{
  ℕ, ◌≡◌, refl, Bool, true, false, not, ◌&&◌, ◌||◌, Option, none, some, List, [], ◌∷◌, ◌++◌, String,
  arith, sym, ap, ◌∙◌, inl, inr, Bool-cases, Option-cases, Outcome, value, raise_if, >>=-eq-value,
  leb, ◌==◌, opt_eq, opt_eq_iff, str_eq, is_text,
}
use gpt_market_neutral_crypt.Events.{Event, reconcile, Line, load_account_events, known_id}
use gpt_market_neutral_crypt.Events.Chain.{NewId, known_id_iff, load-IsChain}
use gpt_market_neutral_crypt.Events.References.{
  Generations, reconcile_refs, verify_account_event_references,
}
use gpt_market_neutral_crypt.Events.References.Pending.{NoMarker}
use gpt_market_neutral_crypt.Events.References.Declared.{verify_declared, pending_head}
use gpt_market_neutral_crypt.Events.Append.{append_account_event}
use gpt_market_neutral_crypt.Events.Append.Growth.{append_grows, append_verified, same_id-new}
use gpt_market_neutral_crypt.Commit.{
  Artifact, Transaction, Canonical, Others, Complete, present, none_staged, Disk,
}
use gpt_market_neutral_crypt.Commit.Completion.{verify_completion_manifest}
use gpt_market_neutral_crypt.Commit.Writes.{
  Write, write, write_all, last_write, completion, generations,
}
use gpt_market_neutral_crypt.Commit.Recovery.{
  recovered, sound, is_supported, is_current, is_manifest_version, marked, resume, account_is,
}
use gpt_market_neutral_crypt.Commit.Recovery.Resume.{write_all-cons, write_all-write}

module _ (sha : Canonical) (o : Others) where
  -- The two parts of a list of writes that succeeds.
  pub write_all-split :
      (cadence : String) (cycle : ℕ) (ws xs : List Write) (d d' : Disk)
      → write_all sha o cadence cycle (ws ++ xs) d ≡ (value tt, d')
      → (d1 : Disk) × (write_all sha o cadence cycle ws d ≡ (value tt, d1))
        × (write_all sha o cadence cycle xs d1 ≡ (value tt, d'))
  unfolding write_all
  write_all-split cadence cycle [] xs d d' h = (d, refl, h)
  write_all-split cadence cycle (w ∷ ws) xs d d' h =
      let (d1, first, rest) = write_all-cons sha o cadence cycle w (ws ++ xs) d d' h in
      let (d2, part, last) = write_all-split cadence cycle ws xs d1 d' rest in
      (d2, write_all-write sha o cadence cycle w ws d d1 first ∙ part, last)

  pub last_write-marker :
      (t : Transaction) (e : Event) (v : ℕ) (report : Artifact) (p : Option Artifact) (d d' : Disk)
      → write_all sha o t.cadence t.cycle (last_write sha o t e v report p ∷ []) d ≡ (value tt, d')
      → (provenance : Artifact) × (d'
          ≡ record d { complete = present (completion sha o t e v report provenance) })
  unfolding write_all write last_write
  last_write-marker t e v report none d d' h = absurd (ground arith)
  last_write-marker t e v report (some provenance) d d' h =
      (provenance, sym (ap (λ (x : Outcome (Unit {0}) × Disk). x.1) h))

  value_not_empty : {e : Event} {events : List Event} → events ≡ e ∷ [] → ¬ (events ≡ [])
  value_not_empty h k = absurd (ground arith)

  -- The head of the chain after an append of an event that is there.
  append_head :
      (digest : Event → String) (disk : Generations) (lines : List Line) (e : Event)
      → append_account_event digest disk lines e ≡ (value tt, lines)
      → (older : List Event) × (load_account_events digest lines ≡ value (e ∷ older))
        × NewId e.event_id older
        × (is_text e.event_id ≡ true)
  append_head digest disk lines e h =
      let v = append_verified digest disk lines lines e h in
      let (events, load, cases) = append_grows digest disk lines lines e h in
      let (text, head) = pending_head digest disk lines events e load v in
      elim cases [
        | inr (grown, chain) ↦ (events, grown, chain.2, text)
        | inl (_, there) ↦ elim (Bool-cases (known_id e.event_id events)) [
          | inl known ↦
              let (older, first) = head known in
              let load' : load_account_events digest lines ≡ value (e ∷ older) =
                load ∙ ap value first in
              (older, load', (load-IsChain digest lines (e ∷ older) load').2, text)
          | inr unknown ↦ absurd (
              value_not_empty there
                (same_id-new e.event_id events ((known_id_iff e.event_id events).0 unknown)))
        ]
      ]

  pub sound-version : (t : Transaction) (v : ℕ) → sound sha o t ≡ value v → leb 3 v ≡ true
  unfolding sound
  sound-version t v h =
      let (_, _, h1) =
        >>=-eq-value (raise_if (not (is_supported t.version) || not t.paper_only)) _ h in
      let (_, _, h2) = >>=-eq-value (raise_if (not (is_text t.intent_sha256))) _ h1 in
      let (_, _, h3) =
        >>=-eq-value
          (raise_if (
            not
              (opt_eq t.intent_sha256 (some (sha.of_intent (record t { intent_sha256 = none }))))))
          _ h2 in
      let (_, _, h4) =
        >>=-eq-value
          (raise_if (elim t.base_account_sha256 as (λ _. Bool) [ none ↦ true | some _ ↦ false ])) _
          h3 in
      let (_, known, h5) =
        >>=-eq-value (raise_if (not (is_manifest_version t.manifest_version))) _ h4 in
      let (_, _, h6) = >>=-eq-value (raise_if (is_current t.version && (t.cycle == 0))) _ h5 in
      let (_, _, h7) =
        >>=-eq-value (raise_if (is_current t.version && not (is_text t.directive_expectation))) _
          h6 in
      elim (Option-cases t.manifest_version) [
        | inl f ↦ absurd (ground arith)
        | inr (w, f) ↦ ground arith
      ]

  -- The references verify behind the marker of the transaction.
  pub committed-verified :
      (t : Transaction) (e : Event) (v : ℕ) (report provenance : Artifact) (d : Disk)
      → leb 3 v ≡ true
      → e.kind ≡ reconcile
      → NoMarker e.event_id (reconcile_refs d.others.markers)
      → append_account_event sha.of_event d.others d.events e ≡ (value tt, d.events)
      → let after : Disk = record d {
        complete = present (completion sha o t e v report provenance);
      } in
        verify_account_event_references sha.of_event
          (generations sha o t.cadence t.cycle after)
          after.events
          (some e)
        ≡ value tt
  unfolding generations completion
  committed-verified t e v report provenance d version kind free appended =
      let before = append_verified sha.of_event d.others d.events d.events e appended in
      let (older, load, new, text) = append_head sha.of_event d.others d.events e appended in
      let declared : leb 3 v && is_text e.event_id ≡ true = rw (version, text) refl in
      elim (Bool-cases (str_eq t.cadence "rebal")) [
        | inl own ↦ rw own (
            verify_declared sha.of_event d.others d.events older e _ load new kind declared refl
              free before)
        | inr other ↦ rw other before
      ]

  -- A transaction whose generation is there and verifies is closed.
  pub resume-intact :
      (t : Transaction) (e : Event) (v : ℕ) (c : Complete) (d : Disk)
      → d.complete ≡ present c
      → c.commit_id ≡ some t.commit_id
      → c.cycle ≡ t.cycle
      → c.paper_only ≡ true
      → verify_completion_manifest sha o d t.cycle c t.cadence ≡ true
      → account_is sha o d t ≡ true
      → resume sha o d t e v
        ≡ (value (recovered t.cycle true), record d { transaction = none_staged })
  unfolding resume marked
  resume-intact t e v c d there id number paper intact same =
      let ids : opt_eq c.commit_id (some t.commit_id) ≡ true =
        (opt_eq_iff c.commit_id (some t.commit_id)).1 id in
      ground (arith, there, ids, number, paper, intact, same)
