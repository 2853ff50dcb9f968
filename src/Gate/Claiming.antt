-- ===== src/Gate/Claiming.antt =====
-- The claims of scripts/desk_schedule_gate.py: each slot of a kind is claimed at most once.
use gpt_market_neutral_crypt.Prelude.{
  ℕ, ◌-◌, ◌≤◌, ◌<◌, ◌≡◌, ◌≢◌, refl, ◌⊎◌, inl, inr, ◌↔◌, Bool, true, false, Option, none, some, List,
  [], ◌∷◌, Outcome, value, raised, arith, ◌∙◌, ap, if◌then◌else◌, subst, Option-cases,
  Outcome-cases,
}
use gpt_market_neutral_crypt.Time.{Instant, day_us}
use gpt_market_neutral_crypt.Gate.Slots.{IsNominal, latest_slot_lem, latest_slot_total}
use gpt_market_neutral_crypt.Gate.{
  Kind, full, heartbeat, latest_slot, Claim, Claims, claim_of, set_claim, ClaimsFile, absent,
  invalid, valid, read_claims, due_slot, claim_due_slot, release_claim, seed_current_slots,
}

-- The slot that the file claims for a kind.
abbrev pub claimed_slot : Kind → ClaimsFile → Option Instant
claimed_slot kind (valid c) = elim (claim_of kind c) [ none ↦ none | some p ↦ some p.slot ]
claimed_slot kind _ = none

-- `slot` is not yet claimed: it is later than what the file holds.
abbrev pub IsLater : Option Instant → Instant → Type 0
IsLater none slot = Unit
IsLater (some s) slot = s < slot

-- The tests of `due_slot` on the slot that `latest_slot` returns.
due_slot-latest :
    (kind : Kind) (now s grace : ℕ) (c : Claims)
    → 0 < grace
    → (due_slot kind now c grace ≡ value (some s)) ↔ (
        (latest_slot kind now ≡ value s)
        × (s ≤ now)
        × (now - s ≤ grace)
        × IsLater (claimed_slot kind (valid c)) s)
unfolding due_slot
due_slot-latest kind now s grace c pos = (
  λ h. ground (arith, Option-cases (claim_of kind c), Outcome-cases (latest_slot kind now)),
  λ h. ground (arith, Option-cases (claim_of kind c)),
)

-- `s` is a slot that the schedule names, has begun, and no later one has.
abbrev pub IsLatest : Kind → Instant → Instant → Type 0
IsLatest kind now s =
    IsNominal kind s × (s ≤ now) × ((t : Instant) → IsNominal kind t → t ≤ now → t ≤ s)

latest_slot_iff :
    (kind : Kind) (now s : Instant)
    → day_us ≤ now
    → (latest_slot kind now ≡ value s) ↔ IsLatest kind now s
latest_slot_iff kind now s late = (
  latest_slot_lem kind now s,
  λ (nominal, begun, last).
      let (t, found) = latest_slot_total kind now late in
      let (nominal', begun', last') = latest_slot_lem kind now t found in
      let same : t ≡ s = omega (arith, last t nominal' begun', last' s nominal begun) in
      found ∙ ap value same,
)

-- From the second day of the calendar on and for a positive grace period, a slot is due exactly if it is one that the
-- schedule names (00:07 for the full cycle, 08:07 or 16:07 for the heartbeat), has begun, no later one of its kind has
-- begun, it began at most the grace period ago, and it is later than the claim of its kind, if there is one.
pub due_slot_lem :
    (kind : Kind) (now s grace : ℕ) (c : Claims)
    → day_us ≤ now
    → 0 < grace
    → (due_slot kind now c grace ≡ value (some s))
      ↔ (IsLatest kind now s × (now - s ≤ grace) × IsLater (claimed_slot kind (valid c)) s)
due_slot_lem kind now s grace c late pos =
    let due = due_slot-latest kind now s grace c pos in
    let latest = latest_slot_iff kind now s late in
    (
      λ h. let (found, begun, fresh, later) = due.0 h in (latest.0 found, fresh, later),
      λ ((nominal, begun, last), fresh, later).
          due.1 (latest.1 (nominal, begun, last), begun, fresh, later),
    )

claimed-set_self :
    (kind : Kind) (p : Claim) (c : Claims)
    → claimed_slot kind (valid (set_claim kind (some p) c)) ≡ some p.slot
claimed-set_self full p c = refl
claimed-set_self heartbeat p c = refl

claimed-set_ne :
    (kind other : Kind) (p : Option Claim) (c : Claims)
    → other ≢ kind
    → claimed_slot other (valid (set_claim kind p c)) ≡ claimed_slot other (valid c)
claimed-set_ne full full p c h = absurd (h refl)
claimed-set_ne full heartbeat p c h = refl
claimed-set_ne heartbeat full p c h = refl
claimed-set_ne heartbeat heartbeat p c h = absurd (h refl)

-- What a claim that returns a slot has read and written.
claim_inversion :
    (kind : Kind) (now grace s : ℕ) (file file' : ClaimsFile)
    → claim_due_slot kind now file grace ≡ value (some s, file')
    → (c : Claims) × (read_claims file ≡ value c)
      × (0 < grace)
      × (due_slot kind now c grace ≡ value (some s))
      × (file' ≡ valid (set_claim kind (some (record { slot = s; claimed_at = now })) c))
unfolding claim_due_slot
claim_inversion kind now grace s file file' h = elim (Outcome-cases (read_claims file)) [
  | inl e ↦ absurd (ground arith)
  | inr (c, e) ↦ elim (Outcome-cases (due_slot kind now c grace)) [
    | inl d ↦ absurd (ground arith)
    | inr (none, d) ↦ absurd (ground arith)
    | inr (some t, d) ↦ (c, e, grace_pos c t d, ground arith, ground arith)
  ]
]
  where
    grace_pos : (c : Claims) (t : ℕ) → due_slot kind now c grace ≡ value (some t) → 0 < grace
    grace_pos c t d = unfold due_slot in ground arith

claimed_of_read :
    (kind : Kind) (file : ClaimsFile) (c : Claims)
    → read_claims file ≡ value c
    → claimed_slot kind (valid c) ≡ claimed_slot kind file
unfolding read_claims
claimed_of_read full absent c h = ground arith
claimed_of_read heartbeat absent c h = ground arith
claimed_of_read kind invalid c h = cc
claimed_of_read full (valid d) c h = ground arith
claimed_of_read heartbeat (valid d) c h = ground arith

-- A claim that returns a slot has moved the file's claim of its kind on to that slot, from an
-- earlier one or none, and leaves the claim of the other kind as it was.
claim_due_slot_moves :
    (kind : Kind) (now grace s : ℕ) (file file' : ClaimsFile)
    → claim_due_slot kind now file grace ≡ value (some s, file')
    → (claimed_slot kind file' ≡ some s)
      × IsLater (claimed_slot kind file) s
      × ((other : Kind) → other ≢ kind → claimed_slot other file' ≡ claimed_slot other file)
claim_due_slot_moves kind now grace s file file' h =
    let (c, r, pos, d, e) = claim_inversion kind now grace s file file' h in
    let due = (due_slot-latest kind now s grace c pos).0 d in
    (
      rw e (claimed-set_self kind _ c),
      rw (← claimed_of_read kind file c r) due.3,
      λ other ne. rw e (claimed-set_ne kind other _ c ne ∙ claimed_of_read other file c r),
    )

-- A poll of the gate: a kind, the instant, the grace period.
abbrev pub Poll : Type 0
Poll = Kind × Instant × ℕ

-- The claims file after a poll that claims; an exception leaves it.
abbrev pub file_after : ClaimsFile → Outcome (Option Instant × ClaimsFile) → ClaimsFile
file_after file raised = file
file_after file (value (slot, file')) = file'

abbrev pub slot_found : Outcome (Option Instant × ClaimsFile) → Option Instant
slot_found raised = none
slot_found (value (slot, file')) = slot

abbrev same : Kind → Kind → Bool
same full full = true
same heartbeat heartbeat = true
same _ _ = false

abbrev cons? : Option Instant → List Instant → List Instant
cons? none slots = slots
cons? (some s) slots = s ∷ slots

-- The slots of `kind` that a sequence of polls claims, in their order.
pub claimed_slots : Kind → ClaimsFile → List Poll → List Instant
claimed_slots kind file [] = []
claimed_slots kind file ((k, now, grace) ∷ polls) =
    let r = claim_due_slot k now file grace in
    let rest = claimed_slots kind (file_after file r) polls in
    if same kind k then cons? (slot_found r) rest else rest

-- Each slot is later than the one before it.
abbrev pub Increasing : Option Instant → List Instant → Type 0
Increasing before [] = Unit
Increasing before (s ∷ slots) = IsLater before s × Increasing (some s) slots

same_cases : (a b : Kind) → ((same a b ≡ true) × (b ≡ a)) ⊎ ((same a b ≡ false) × (a ≢ b))
same_cases full full = inl (refl, refl)
same_cases full heartbeat = inr (refl, λ e. cc)
same_cases heartbeat full = inr (refl, λ e. cc)
same_cases heartbeat heartbeat = inl (refl, refl)

if_same :
    (before : Option Instant) (a b : Kind) (slots : List Instant)
    → Increasing before slots
    → Increasing before (if same a b then slots else slots)
if_same before a b slots h = elim (same_cases a b) [ inl (t, _) ↦ rw t h | inr (t, _) ↦ rw t h ]

-- A claim that finds no slot leaves the file.
pub claim-none :
    (kind : Kind) (now grace : ℕ) (file file' : ClaimsFile)
    → claim_due_slot kind now file grace ≡ value (none, file')
    → file' ≡ file
unfolding claim_due_slot
claim-none kind now grace file file' h = elim (Outcome-cases (read_claims file)) [
  | inl e ↦ absurd (ground arith)
  | inr (c, e) ↦ elim (Outcome-cases (due_slot kind now c grace)) [
    | inl d ↦ absurd (ground arith)
    | inr (none, d) ↦ ground arith
    | inr (some t, d) ↦ absurd (ground arith)
  ]
]

-- Whatever the polls and their instants, no slot of a kind is claimed twice: the slots claimed
-- are strictly increasing, and all later than the claim that the file held before.
pub claimed_slots-Increasing :
    (kind : Kind) (file : ClaimsFile) (polls : List Poll)
    → Increasing (claimed_slot kind file) (claimed_slots kind file polls)
unfolding claimed_slots
claimed_slots-Increasing kind file [] = tt
claimed_slots-Increasing kind file ((k, now, grace) ∷ polls) =
    go (claim_due_slot k now file grace) refl (λ f. claimed_slots-Increasing kind f polls)
  where
    go :
        (r : Outcome (Option Instant × ClaimsFile))
        → claim_due_slot k now file grace ≡ r
        → ((f : ClaimsFile) → Increasing (claimed_slot kind f) (claimed_slots kind f polls))
        → Increasing (claimed_slot kind file) (
            if same kind k
            then cons? (slot_found r) (claimed_slots kind (file_after file r) polls)
            else claimed_slots kind (file_after file r) polls)
    go raised e ih = if_same _ kind k _ (ih file)
    go (value (none, f)) e ih = if_same _ kind k _ (rw (← claim-none k now grace file f e) (ih f))
    go (value (some s, f)) e ih =
        let (moved, later, others) = claim_due_slot_moves k now grace s file f e in
        elim (same_cases kind k) [
          | inl (t, eq) ↦ rw t (
            subst (λ x. IsLater (claimed_slot x file) s) eq later,
            subst (λ o. Increasing o (claimed_slots kind f polls))
                (subst (λ x. claimed_slot x f ≡ some s) eq moved) (ih f),
          )
          | inr (t, ne) ↦ rw (t, ← others kind ne) (ih f)
        ]

-- A slot of either kind that a call has claimed can be released at any instant at which it is the latest one and
-- its grace period lasts; its kind then has no claim, and a claim call at any such instant returns
-- the slot again.
pub release_then_claim :
    (kind : Kind) (now now' now'' grace s : ℕ) (file file' : ClaimsFile)
    → claim_due_slot kind now file grace ≡ value (some s, file')
    → latest_slot kind now' ≡ value s
    → s ≤ now'
    → now' - s ≤ grace
    → latest_slot kind now'' ≡ value s
    → s ≤ now''
    → now'' - s ≤ grace
    → (file'' : ClaimsFile) × (release_claim kind now' file' grace ≡ value (some s, file''))
      × (claimed_slot kind file'' ≡ none)
      × (slot_found (claim_due_slot kind now'' file'' grace) ≡ some s)
unfolding release_claim claim_due_slot read_claims due_slot
release_then_claim full now now' now'' grace s file file' h l a b l' a' b' =
    let (c, r, pos, d, e) = claim_inversion full now grace s file file' h in
    (valid (set_claim full none c), ground arith, refl, ground arith)
release_then_claim heartbeat now now' now'' grace s file file' h l a b l' a' b' =
    let (c, r, pos, d, e) = claim_inversion heartbeat now grace s file file' h in
    (valid (set_claim heartbeat none c), ground arith, refl, ground arith)

-- After the seeding of a new install, a claim call with a positive grace period finds no slot of a
-- kind and leaves the file, as long as the latest slot of that kind is the one at the time of the
-- seeding.
pub seed_current_slots_blocks :
    (kind : Kind) (now now' grace s : ℕ) (file : ClaimsFile)
    → seed_current_slots now absent ≡ value (true, file)
    → 0 < grace
    → latest_slot kind now ≡ value s
    → latest_slot kind now' ≡ value s
    → claim_due_slot kind now' file grace ≡ value (none, file)
unfolding seed_current_slots claim_due_slot read_claims due_slot
seed_current_slots_blocks full now now' grace s file h pos e e' =
    ground (arith, Outcome-cases (latest_slot heartbeat now))
seed_current_slots_blocks heartbeat now now' grace s file h pos e e' =
    ground (arith, Outcome-cases (latest_slot full now))
