-- ===== src/RunLock/Race.antt =====
-- Schedules of futures_fund/runlock.py that end with two holders of the lock.
use gpt_market_neutral_crypt.Prelude.{ℕ, ◌≡◌, ◌≢◌, true, Option, none, some, List, [], ◌∷◌, arith}
use gpt_market_neutral_crypt.RunLock.{
  Holder, is_stale, may_unlink, Disk, read_lock, unlink, acquired, start, step, Process, World,
  take_step, run,
}
use gpt_market_neutral_crypt.RunLock.Alone.{may_unlink_self}

-- Both calls of `try_acquire` have returned True.
abbrev pub BothHold : ℕ → ℕ → World → Type 0
BothHold p q w = (x y : Option Holder) × (w.pc p ≡ acquired x) × (w.pc q ≡ acquired y)

abbrev pub fresh_world : Disk → World
fresh_world d = record { disk = d; pc = λ _. start }

-- `q` finds the lock of `p` between its create and its write.
abbrev pub empty_payload : ℕ → ℕ → List ℕ
empty_payload p q = p ∷ q ∷ q ∷ q ∷ p ∷ q ∷ q ∷ q ∷ []

-- On a free lock any two processes can both acquire it, whatever their clocks and the window: the
-- second one reads the file before its payload is written, takes it for a stale lock, and removes
-- it.
pub double_acquire_free :
    (process : ℕ → Process) (stale_after p q : ℕ) (d : Disk)
    → p ≢ q
    → d.entry ≡ none
    → BothHold p q (run process stale_after (empty_payload p q) (fresh_world d))
unfolding run take_step step read_lock is_stale may_unlink unlink
double_acquire_free process stale_after p q d ne free = (none, none, ground arith, ground arith)

-- Both find the same stale lock; the second removes the lock that the first has just made.
abbrev pub stale_pair : ℕ → ℕ → List ℕ
stale_pair p q = p ∷ p ∷ p ∷ q ∷ q ∷ q ∷ p ∷ p ∷ p ∷ q ∷ q ∷ q ∷ []

-- On a lock that both find stale, any two processes can both acquire it, each reporting that it
-- evicted the same stale holder.
pub double_acquire_stale :
    (process : ℕ → Process) (stale_after p q i : ℕ) (d : Disk)
    → p ≢ q
    → d.entry ≡ some i
    → is_stale (read_lock d) (process p).now stale_after ≡ true
    → is_stale (read_lock d) (process q).now stale_after ≡ true
    → let w = run process stale_after (stale_pair p q) (fresh_world d) in
      (w.pc p ≡ acquired (read_lock d)) × (w.pc q ≡ acquired (read_lock d))
unfolding run take_step step unlink
double_acquire_stale process stale_after p q i d ne held sp sq =
    ground (arith, may_unlink_self (read_lock d))
