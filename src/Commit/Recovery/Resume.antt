-- ===== src/Commit/Recovery/Resume.antt =====
-- A list of writes of futures_fund/reconcile_commit.py that a crash has cut short, done again.
use gpt_market_neutral_crypt.Prelude.{
  ℕ, ◌≡◌, refl, List, [], ◌∷◌, ◌++◌, String, arith, sym, ap, ◌∙◌, All, inl, inr, Outcome, value,
  raised, Outcome-cases,
}
use gpt_market_neutral_crypt.Commit.{Canonical, Others, Disk}
use gpt_market_neutral_crypt.Commit.Writes.{Write, write, write_all}
use gpt_market_neutral_crypt.Commit.Recovery.Steps.{Apart, Ready, Done, write-Done, Done-write}
use gpt_market_neutral_crypt.Commit.Recovery.Steps.Keeping.{write-Done_kept, write-Ready_kept}

-- Writes with different targets.
abbrev pub AllApart : List Write → Type 0
AllApart [] = Unit
AllApart (w ∷ ws) = All (λ (x : Write). Apart w x) ws × AllApart ws

abbrev pub AllReady : List Write → Disk → Type 0
AllReady ws d = All (λ (w : Write). Ready w d) ws

module _ (sha : Canonical) (o : Others) (cadence : String) (cycle : ℕ) where
  -- The first write of a list that succeeds, and the rest.
  pub write_all-cons :
      (w : Write) (ws : List Write) (d d' : Disk)
      → write_all sha o cadence cycle (w ∷ ws) d ≡ (value tt, d')
      → (d1 : Disk) × (write sha o cadence cycle w d ≡ (value tt, d1))
        × (write_all sha o cadence cycle ws d1 ≡ (value tt, d'))
  unfolding write_all
  write_all-cons w ws d d' h =
      let (r, d1) = write sha o cadence cycle w d in
      elim (Outcome-cases r) [
        | inl f ↦ absurd (ground arith)
        | inr (u, f) ↦ (d1, ap (λ (x : Outcome (Unit {0})). (x, d1)) f, ground arith)
      ]

  pub write_all-write :
      (w : Write) (ws : List Write) (d d1 : Disk)
      → write sha o cadence cycle w d ≡ (value tt, d1)
      → write_all sha o cadence cycle (w ∷ ws) d ≡ write_all sha o cadence cycle ws d1
  unfolding write_all
  write_all-write w ws d d1 h =
      ap
        (λ (x : Outcome (Unit {0}) × Disk). elim x.0 as (λ _. Outcome (Unit {0}) × Disk) [
          | raised ↦ (raised, x.1)
          | value _ ↦ write_all sha o cadence cycle ws x.1
        ])
        h

  -- After a first part that succeeds, a list of writes goes on with the rest.
  pub write_all-append :
      (ws xs : List Write) (d d' : Disk)
      → write_all sha o cadence cycle ws d ≡ (value tt, d')
      → write_all sha o cadence cycle (ws ++ xs) d ≡ write_all sha o cadence cycle xs d'
  unfolding write_all
  write_all-append [] xs d d' h =
      ap (λ (x : Outcome (Unit {0}) × Disk). write_all sha o cadence cycle xs x.1) h
  write_all-append (w ∷ ws) xs d d' h =
      let (d1, first, rest) = write_all-cons w ws d d' h in
      write_all-write w (ws ++ xs) d d1 first ∙ write_all-append ws xs d1 d' rest

  pub write-AllReady_kept :
      (ws : List Write) (x : Write) (d d' : Disk)
      → Ready x d
      → write sha o cadence cycle x d ≡ (value tt, d')
      → AllReady ws d
      → AllReady ws d'
  write-AllReady_kept [] x d d' ready h all = tt
  write-AllReady_kept (w ∷ ws) x d d' ready h all = (
    write-Ready_kept sha o cadence cycle w x d d' ready h all.0,
    write-AllReady_kept ws x d d' ready h all.1,
  )

  -- A write that is done stays so through writes of other targets.
  Done-write_all :
      (w : Write) (ws : List Write) (d d' : Disk)
      → AllReady ws d
      → All (λ (x : Write). Apart w x) ws
      → Done sha o w d
      → write_all sha o cadence cycle ws d ≡ (value tt, d')
      → Done sha o w d'
  unfolding write_all
  Done-write_all w [] d d' ready apart done h =
      rw (← ap (λ (x : Outcome (Unit {0}) × Disk). x.1) h) done
  Done-write_all w (x ∷ ws) d d' ready apart done h =
      let (d1, first, rest) = write_all-cons x ws d d' h in
      Done-write_all w ws d1 d' (write-AllReady_kept ws x d d1 ready.0 first ready.1) apart.1
        (write-Done_kept sha o cadence cycle w x d d1 ready.0 apart.0 done first) rest

  -- After a list of writes with different targets, every one of them is done.
  pub write_all-Done :
      (ws : List Write) (d d' : Disk)
      → AllReady ws d
      → AllApart ws
      → write_all sha o cadence cycle ws d ≡ (value tt, d')
      → All (λ (w : Write). Done sha o w d') ws
  write_all-Done [] d d' ready apart h = tt
  write_all-Done (w ∷ ws) d d' ready apart h =
      let (d1, first, rest) = write_all-cons w ws d d' h in
      let ready1 = write-AllReady_kept ws w d d1 ready.0 first ready.1 in
      (
        Done-write_all w ws d1 d' ready1 apart.0
            (write-Done sha o cadence cycle w d d1 ready.0 first) rest,
        write_all-Done ws d1 d' ready1 apart.1 rest,
      )

  -- Writes that are done change nothing.
  write_all_settled :
      (ws : List Write) (d : Disk)
      → All (λ (w : Write). Done sha o w d) ws
      → write_all sha o cadence cycle ws d ≡ (value tt, d)
  unfolding write_all
  write_all_settled [] d all = refl
  write_all_settled (w ∷ ws) d all =
      write_all-write w ws d d (Done-write sha o cadence cycle w d all.0)
      ∙ write_all_settled ws d all.1

  -- After a crash behind a part of the writes, doing all of them ends as without the crash.
  pub write_all_resumed :
      (ws xs : List Write) (d d' : Disk)
      → AllReady ws d
      → AllApart ws
      → write_all sha o cadence cycle ws d ≡ (value tt, d')
      → write_all sha o cadence cycle (ws ++ xs) d' ≡ write_all sha o cadence cycle (ws ++ xs) d
  write_all_resumed ws xs d d' ready apart h =
      let again = write_all_settled ws d' (write_all-Done ws d d' ready apart h) in
      write_all-append ws xs d' d' again ∙ sym (write_all-append ws xs d d' h)
