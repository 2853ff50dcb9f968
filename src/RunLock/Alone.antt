-- ===== src/RunLock/Alone.antt =====
-- `try_acquire` of futures_fund/runlock.py with no other process about.
use native.Mathlib.Nat.{zero-add, suc-add}
use gpt_market_neutral_crypt.Prelude.{
  eq_iff, ℕ, zero, suc, ◌+◌, ◌≡◌, refl, true, false, Option, none, some, arith,
}
use gpt_market_neutral_crypt.Time.{Instant}
use gpt_market_neutral_crypt.RunLock.{
  StartTs, missing, malformed, iso, same_start, Holder, is_stale, may_unlink, Disk, read_lock,
  unlink, Pc, creating, acquired, denied, start, step,
}

-- `n` steps of one process.
pub steps_alone : ℕ → Holder → Instant → ℕ → Pc × Disk → Pc × Disk
steps_alone zero me now stale_after s = s
steps_alone (suc n) me now stale_after (pc, d) =
    steps_alone n me now stale_after (step me now stale_after pc d)

same_start_self : (s : StartTs) → same_start s s ≡ true
unfolding same_start
same_start_self missing = refl
same_start_self (malformed a) = (eq_iff a a).1 refl
same_start_self (iso a _) = (eq_iff a a).1 refl

pub may_unlink_self : (h : Option Holder) → may_unlink h h ≡ true
unfolding may_unlink
may_unlink_self none = refl
may_unlink_self (some h) = ground (arith, same_start_self h.start_ts)

create_and_write :
    (me : Holder) (now stale_after k : ℕ) (evicted : Option Holder) (d : Disk)
    → d.entry ≡ none
    → let (pc, d') = steps_alone 2 me now stale_after (creating (suc k) evicted, d) in
      (pc ≡ acquired evicted) × (read_lock d' ≡ some me)
unfolding steps_alone step read_lock
create_and_write me now stale_after k evicted d h = ground arith

evict :
    (me : Holder) (now stale_after i : ℕ) (d : Disk)
    → d.entry ≡ some i
    → is_stale (read_lock d) now stale_after ≡ true
    → steps_alone 4 me now stale_after (start, d) ≡ (creating 7 (read_lock d), unlink d)
unfolding steps_alone step
evict me now stale_after i d h stale = ground (arith, may_unlink_self (read_lock d))

steps_alone-add :
    (m n : ℕ) (me : Holder) (now stale_after : ℕ) (s : Pc × Disk)
    → steps_alone (m + n) me now stale_after s
      ≡ steps_alone n me now stale_after (steps_alone m me now stale_after s)
unfolding steps_alone
steps_alone-add zero n me now stale_after s = rw zero-add
steps_alone-add (suc m) n me now stale_after (pc, d) =
    rw suc-add (steps_alone-add m n me now stale_after (step me now stale_after pc d))

-- A free lock is taken: after two steps it holds the caller's payload, and nobody was evicted.
pub acquire_free :
    (me : Holder) (now stale_after : ℕ) (d : Disk)
    → d.entry ≡ none
    → let (pc, d') = steps_alone 2 me now stale_after (start, d) in
      (pc ≡ acquired none) × (read_lock d' ≡ some me)
unfolding steps_alone step read_lock
acquire_free me now stale_after d h = ground arith

-- With no other process about, a caller that finds a live holder is denied in two steps, is told
-- who holds the lock, and changes nothing.
acquire_live :
    (me : Holder) (now stale_after i : ℕ) (d : Disk)
    → d.entry ≡ some i
    → is_stale (read_lock d) now stale_after ≡ false
    → steps_alone 2 me now stale_after (start, d) ≡ (denied (read_lock d), d)
unfolding steps_alone step
acquire_live me now stale_after i d h live = ground arith

-- With no other process about, a stale lock is taken in six steps: the caller is told whom it
-- evicted, and the lock holds the caller's payload.
pub acquire_stale :
    (me : Holder) (now stale_after i : ℕ) (d : Disk)
    → d.entry ≡ some i
    → is_stale (read_lock d) now stale_after ≡ true
    → let (pc, d') = steps_alone 6 me now stale_after (start, d) in
      (pc ≡ acquired (read_lock d)) × (read_lock d' ≡ some me)
acquire_stale me now stale_after i d h stale =
    rw (steps_alone-add 4 2 me now stale_after (start, d), evict me now stale_after i d h stale)
      (create_and_write me now stale_after 6 (read_lock d) (unlink d) (unfold unlink in refl))
