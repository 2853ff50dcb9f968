-- ===== src/RunLock/Tests.antt =====
-- Runs of the lock of futures_fund/runlock.py: a free disk, and one whose lock is an hour old.
use gpt_market_neutral_crypt.Prelude.{
  ℕ, ◌+◌, ◌*◌, ◌≡◌, refl, true, false, none, some, [], ◌∷◌, arith,
}
use gpt_market_neutral_crypt.Time.{minute_us, hour_us, epoch}
use gpt_market_neutral_crypt.RunLock.{
  iso, Holder, is_stale, Disk, read_lock, acquired, start, Process, run, take_step, step,
}
use gpt_market_neutral_crypt.RunLock.Alone.{steps_alone, acquire_free}
use gpt_market_neutral_crypt.RunLock.Exclusion.{NoUnlink, one_holder, is_unlinking}
use gpt_market_neutral_crypt.RunLock.Race.{
  BothHold, fresh_world, empty_payload, stale_pair, double_acquire_free, double_acquire_stale,
}

abbrev window : ℕ
window = 30 * minute_us

abbrev old : Holder
old = record { pid = 7; start_ts = iso "2026-11-01T00:00:00Z" epoch }

abbrev late : ℕ
late = epoch + hour_us

abbrev me : Holder
me = record { pid = 8; start_ts = iso "2026-11-02T00:00:00Z" late }

abbrev free_disk : Disk
free_disk = record { entry = none; content = λ _. none; next = 0 }

abbrev held_disk : Disk
held_disk = record { entry = some 0; content = λ _. some old; next = 1 }

abbrev processes : ℕ → Process
processes i = record {
  me = record { pid = i; start_ts = iso "2026-11-02T00:00:00Z" late };
  now = late;
}

acquire_free_example :
    let (pc, d') = steps_alone 2 me late window (start, free_disk) in
    (pc ≡ acquired none) × (read_lock d' ≡ some me)
acquire_free_example = acquire_free me late window free_disk refl

old_is_live : is_stale (read_lock held_disk) (epoch + minute_us) window ≡ false
unfolding is_stale read_lock
old_is_live = refl

old_is_stale : is_stale (read_lock held_disk) late window ≡ true
unfolding is_stale read_lock
old_is_stale = refl

no_unlink : NoUnlink processes window (1 ∷ 1 ∷ 2 ∷ []) (fresh_world free_disk)
unfolding is_unlinking take_step step
no_unlink = (refl, (refl, (refl, tt)))

first_acquires :
    (run processes window (1 ∷ 1 ∷ 2 ∷ []) (fresh_world free_disk)).pc 1 ≡ acquired none
unfolding run take_step step
first_acquires = refl

one_holder_example : ◌≡◌ {A = ℕ} 1 1
one_holder_example =
    one_holder processes window (1 ∷ 1 ∷ 2 ∷ []) free_disk no_unlink 1 1 none none first_acquires
      first_acquires

double_acquire_free_example :
    BothHold 1 2 (run processes window (empty_payload 1 2) (fresh_world free_disk))
double_acquire_free_example = double_acquire_free processes window 1 2 free_disk (omega arith) refl

double_acquire_stale_example :
    let w = run processes window (stale_pair 1 2) (fresh_world held_disk) in
    (w.pc 1 ≡ acquired (read_lock held_disk)) × (w.pc 2 ≡ acquired (read_lock held_disk))
double_acquire_stale_example =
    double_acquire_stale processes window 1 2 0 held_disk (omega arith) refl old_is_stale
      old_is_stale
