-- ===== src/Gate/Running.antt =====
-- The command line of scripts/desk_schedule_gate.py as a whole.
use gpt_market_neutral_crypt.Prelude.{
  ℕ, ◌≡◌, ◌≢◌, refl, ◌⊎◌, inl, inr, Option, none, some, Outcome, value, raised, arith, ◌∙◌, ap,
  Outcome-cases,
}
use gpt_market_neutral_crypt.Time.{Instant}
use gpt_market_neutral_crypt.Gate.{
  Kind, ClaimsFile, read_claims, claim_due_slot, release_claim, seed_current_slots, Action, check,
  claim, release, seed_all, main,
}
use gpt_market_neutral_crypt.Gate.Claiming.{claim-none}

-- A claim call that finds no slot, or raises, leaves the file.
claim_exit :
    (kind : Kind) (now grace : ℕ) (file : ClaimsFile)
    → (claim_due_slot kind now file grace ≡ raised)
      ⊎ (claim_due_slot kind now file grace ≡ value (none, file))
      ⊎ ((s : Instant) × (f : ClaimsFile) × (claim_due_slot kind now file grace
            ≡ value (some s, f)))
claim_exit kind now grace file = go (claim_due_slot kind now file grace) refl
  where
    go :
        (r : Outcome (Option Instant × ClaimsFile))
        → claim_due_slot kind now file grace ≡ r
        → (claim_due_slot kind now file grace ≡ raised)
          ⊎ (claim_due_slot kind now file grace ≡ value (none, file))
          ⊎ ((s : Instant) × (f : ClaimsFile) × (claim_due_slot kind now file grace
                ≡ value (some s, f)))
    go raised e = inl e
    go (value (none, f)) e =
        inr
          (inl (e ∙ ap (λ (x : ClaimsFile). value (none, x)) (claim-none kind now grace file f e)))
    go (value (some s, f)) e = inr (inr (s, f, e))

-- The claims file is left as it is by every run of the command line that does not exit with 0, and
-- by every run with `--check`.
pub main-unchanged :
    (action : Action) (kind : Option Kind) (now grace : ℕ) (file : ClaimsFile)
    → ((main action kind now grace file).0 ≢ 0) ⊎ (action ≡ check)
    → (main action kind now grace file).1 ≡ file
unfolding main
main-unchanged check none now grace file h = refl
main-unchanged check (some kind) now grace file h = ground (arith, Outcome-cases (read_claims file))
main-unchanged claim none now grace file h = refl
main-unchanged claim (some kind) now grace file h =
    ground (arith, Outcome-cases (read_claims file), claim_exit kind now grace file)
main-unchanged release none now grace file h = refl
main-unchanged release (some kind) now grace file h =
    unfold release_claim in ground (arith, Outcome-cases (read_claims file))
main-unchanged seed_all kind now grace file h =
    ground (arith, Outcome-cases (seed_current_slots now file))
