-- ===== src/RunLock/Exclusion.antt =====
-- What the exclusive create of futures_fund/runlock.py gives: while no process unlinks the lock,
-- one process at most holds it.
use gpt_market_neutral_crypt.Prelude.{
  ℕ, zero, suc, ◌≡◌, ◌≢◌, Bool, true, false, Option, none, List, [], ◌∷◌, arith, ◌⊎◌,
}
use gpt_market_neutral_crypt.RunLock.{
  Holder, Disk, Pc, creating, writing, unlinking, acquired, start, step, Process, World, take_step,
  run,
}

-- The process has made the lock file: it writes its payload, or has returned True.
unfoldable pub has_created : Pc → Bool
has_created (writing i evicted) = true
has_created (acquired evicted) = true
has_created _ = false

unfoldable pub is_unlinking : Pc → Bool
is_unlinking (unlinking k seen) = true
is_unlinking _ = false

record Exclusive (w : World) : Type 0 where
  entered : (j : ℕ) → has_created (w.pc j) ≡ true → w.disk.entry ≢ none
  unique : (i j : ℕ) → has_created (w.pc i) ≡ true → has_created (w.pc j) ≡ true → i ≡ j

-- One step of a process that does not unlink: it makes the file where there was none, or it
-- changes neither the entry nor whether it has made the file.
step_cases :
    (me : Holder) (now stale_after : ℕ) (pc : Pc) (d : Disk)
    → is_unlinking pc ≡ false
    → let (pc', d') = step me now stale_after pc d in
      ((has_created pc' ≡ has_created pc) × (d'.entry ≡ d.entry))
      ⊎ ((d.entry ≡ none) × (d'.entry ≢ none))
unfolding step has_created is_unlinking
step_cases me now stale_after (creating zero evicted) d h = ground arith
step_cases me now stale_after (creating (suc k) evicted) d h = ground arith
step_cases me now stale_after (unlinking k seen) d h = cc
step_cases me now stale_after _ d h = ground arith

module _ (process : ℕ → Process) (stale_after : ℕ) where
  -- No step of the schedule is an unlink.
  abbrev pub NoUnlink : List ℕ → World → Type 0
  NoUnlink [] w = Unit
  NoUnlink (i ∷ schedule) w =
      (is_unlinking (w.pc i) ≡ false) × NoUnlink schedule (take_step process stale_after i w)

  take_step-Exclusive :
      (i : ℕ) (w : World)
      → is_unlinking (w.pc i) ≡ false
      → Exclusive w
      → Exclusive (take_step process stale_after i w)
  unfolding take_step
  take_step-Exclusive i w h x =
      let c = step_cases (process i).me (process i).now stale_after (w.pc i) w.disk h in
      record {
        entered = λ j e. ground (arith, c, x.entered j, x.entered i);
        unique = λ a b p q.
            ground (arith, c, x.unique a b, x.unique a i, x.unique i b, x.entered a, x.entered b);
      }

  run-Exclusive :
      (schedule : List ℕ) (w : World)
      → NoUnlink schedule w
      → Exclusive w
      → Exclusive (run process stale_after schedule w)
  unfolding run
  run-Exclusive [] w h x = x
  run-Exclusive (i ∷ schedule) w h x =
      run-Exclusive schedule (take_step process stale_after i w) h.1 (take_step-Exclusive i w h.0 x)

  -- From calls that have just begun, in every schedule without an unlink, at most one process
  -- acquires the lock.
  pub one_holder :
      (schedule : List ℕ) (d : Disk)
      → let w = run process stale_after schedule (record { disk = d; pc = λ _. start }) in
        NoUnlink schedule (record { disk = d; pc = λ _. start })
        → (p q : ℕ) (x y : Option Holder) → w.pc p ≡ acquired x
        → w.pc q ≡ acquired y
        → p ≡ q
  unfolding has_created
  one_holder schedule d h p q x y hp hq =
      let begun : Exclusive (record { disk = d; pc = λ _. start }) = record {
        entered = λ j e. cc;
        unique = λ i j e. cc;
      } in
      let done = run-Exclusive schedule (record { disk = d; pc = λ _. start }) h begun in
      done.unique p q (rw hp) (rw hq)
