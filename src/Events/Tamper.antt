-- ===== src/Events/Tamper.antt =====
-- Tamper evidence of the event chain of futures_fund/state_transaction.py: the hash of the newest
-- event fixes the whole chain, as far as the bodies in question have no digest in common.
use mathlib.Core.Option.{some-injective}
use gpt_market_neutral_crypt.Prelude.{
  ◌≡◌, refl, String, none, List, [], ◌∷◌, sym, ap, ◌∙◌, In, inl, inr, value,
}
use gpt_market_neutral_crypt.Events.{
  Event, root_account_anchor, account_event, event_digest, Line, load_account_events,
}
use gpt_market_neutral_crypt.Events.Chain.{IsRow, IsChain, load-IsChain}

-- An event without its own hash.
abbrev pub body : Event → Event
body e = record e { event_sha256 = none }

-- `canonical_json_sha256` has no collision between the events of two chains.
abbrev pub NoCollision : (Event → String) → List Event → List Event → Type 0
NoCollision digest xs ys =
    (x y : Event) → In x xs → In y ys → digest (body x) ≡ digest (body y) → body x ≡ body y

same_event : (a b : Event) → body a ≡ body b → a.event_sha256 ≡ b.event_sha256 → a ≡ b
same_event a b e h = λ i. record (e i) { event_sha256 = h i }

-- An event is fixed by its hash.
event_of_hash :
    (digest : Event → String) (a b : Event)
    → (digest (body a) ≡ digest (body b) → body a ≡ body b)
    → IsRow digest a
    → IsRow digest b
    → a.event_sha256 ≡ b.event_sha256
    → a ≡ b
unfolding event_digest
event_of_hash digest a b inj ra rb h =
    same_event a b (inj (some-injective _ _ (sym ra.4 ∙ h ∙ rb.4))) h

anchor-ne-follower :
    (a b : Event)
    → a ≡ b
    → a.lineage_origin ≡ root_account_anchor
    → b.lineage_origin ≡ account_event
    → ⊥
anchor-ne-follower a b e p q = cc (ap (λ (x : Event). x.lineage_origin) e)

-- Two chains whose newest events have the same hash are the same, event by event.
head_hash_fixes_chain :
    (digest : Event → String) (a b : Event) (older older' : List Event)
    → NoCollision digest (a ∷ older) (b ∷ older')
    → IsChain digest (a ∷ older)
    → IsChain digest (b ∷ older')
    → a.event_sha256 ≡ b.event_sha256
    → ◌≡◌ {A = List Event} (a ∷ older) (b ∷ older')
head_hash_fixes_chain digest a b [] [] free ca cb h =
    ap (λ (x : Event). x ∷ [])
      (event_of_hash digest a b (free a b (inl refl) (inl refl)) ca.0 cb.0 h)
head_hash_fixes_chain digest a b [] (q ∷ older') free ca cb h = absurd (
    anchor-ne-follower a b (event_of_hash digest a b (free a b (inl refl) (inl refl)) ca.0 cb.0 h)
      ca.3.0.0 cb.3.0)
head_hash_fixes_chain digest a b (p ∷ older) [] free ca cb h = absurd (
    anchor-ne-follower b a
      (sym (event_of_hash digest a b (free a b (inl refl) (inl refl)) ca.0 cb.0 h)) cb.3.0.0 ca.3.0)
head_hash_fixes_chain digest a b (p ∷ older) (q ∷ older') free ca cb h =
    let heads = event_of_hash digest a b (free a b (inl refl) (inl refl)) ca.0 cb.0 h in
    let links = ap (λ (x : Event). x.previous_event_sha256) heads in
    let rest =
      head_hash_fixes_chain digest p q older older' (λ x y i j. free x y (inr i) (inr j)) ca.4 cb.4
        (sym ca.3.2 ∙ links ∙ cb.3.2) in
    λ i. heads i ∷ rest i

-- Two files that the loader accepts and whose newest events have the same hash hold the same events, if no two different
-- bodies in them share a digest.
pub head_hash_fixes_events :
    (digest : Event → String) (file file' : List Line) (a b : Event) (older older' : List Event)
    → load_account_events digest file ≡ value (a ∷ older)
    → load_account_events digest file' ≡ value (b ∷ older')
    → NoCollision digest (a ∷ older) (b ∷ older')
    → a.event_sha256 ≡ b.event_sha256
    → load_account_events digest file ≡ load_account_events digest file'
head_hash_fixes_events digest file file' a b older older' loaded loaded' free same =
    let chain = load-IsChain digest file (a ∷ older) loaded in
    let chain' = load-IsChain digest file' (b ∷ older') loaded' in
    loaded
    ∙ ap value (head_hash_fixes_chain digest a b older older' free chain chain' same)
    ∙ sym loaded'
