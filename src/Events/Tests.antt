-- ===== src/Events/Tests.antt =====
-- Runs of the event chain of futures_fund/state_transaction.py on the samples.
use gpt_market_neutral_crypt.Prelude.{
  ◌≡◌, ◌≢◌, refl, String, [], ◌∷◌, value, inl, inr, arith, ap, sym, ◌∙◌, eq_iff,
}
use gpt_market_neutral_crypt.Events.{
  event_digest, load_account_events, load_from, load_row, row_valid, fits, known_id, blank,
}
use gpt_market_neutral_crypt.Events.Chain.{IsChain, rows, load-IsChain, load-rows}
use gpt_market_neutral_crypt.Events.Tamper.{NoCollision, body, head_hash_fixes_events}
use gpt_market_neutral_crypt.Events.Samples.{digest, first, second, both_file}

both_load : load_account_events digest both_file ≡ value (second ∷ first ∷ [])
unfolding load_account_events load_from load_row row_valid fits known_id event_digest
both_load = refl

both_IsChain : IsChain digest (second ∷ first ∷ [])
both_IsChain = load-IsChain digest both_file (second ∷ first ∷ []) both_load

load-IsChain_example : IsChain digest (second ∷ first ∷ [])
load-IsChain_example = load-IsChain digest both_file (second ∷ first ∷ []) both_load

load-rows_example :
    load_account_events digest (rows (second ∷ first ∷ []) []) ≡ value (second ∷ first ∷ [])
load-rows_example = load-rows digest (second ∷ first ∷ []) both_IsChain

ids_apart : ◌≢◌ {A = String} "h2" "r1"
ids_apart e = absurd (ground (arith, eq_iff "h2" "r1"))

heads_apart : digest (body second) ≡ digest (body first) → ⊥
heads_apart h = ids_apart h

free_of_collisions : NoCollision digest (second ∷ first ∷ []) (second ∷ first ∷ [])
free_of_collisions x y (inl p) (inl q) h = ap body (p ∙ sym q)
free_of_collisions x y (inr (inl p)) (inr (inl q)) h = ap body (p ∙ sym q)
free_of_collisions x y (inl p) (inr (inl q)) h =
    absurd (heads_apart (sym (ap (λ z. digest (body z)) p) ∙ h ∙ ap (λ z. digest (body z)) q))
free_of_collisions x y (inr (inl p)) (inl q) h =
    absurd (heads_apart (sym (ap (λ z. digest (body z)) q) ∙ sym h ∙ ap (λ z. digest (body z)) p))
free_of_collisions x y (inr (inr f)) j h = absurd f
free_of_collisions x y (inl p) (inr (inr f)) h = absurd f
free_of_collisions x y (inr (inl p)) (inr (inr f)) h = absurd f

-- The second file has a blank line more.
spaced_load : load_account_events digest (blank ∷ both_file) ≡ value (second ∷ first ∷ [])
unfolding load_account_events load_from load_row row_valid fits known_id event_digest
spaced_load = refl

head_hash_fixes_events_example :
    load_account_events digest both_file ≡ load_account_events digest (blank ∷ both_file)
head_hash_fixes_events_example =
    head_hash_fixes_events digest both_file (blank ∷ both_file) second second (first ∷ [])
      (first ∷ []) both_load spaced_load free_of_collisions refl
