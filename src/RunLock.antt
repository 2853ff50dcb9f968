-- ===== src/RunLock.antt =====
-- futures_fund/runlock.py: the single-flight lock file `.run.lock`. Each system call on the lock
-- is one atomic step: the exclusive create, the write of the payload, a read of the whole file,
-- the unlink. Processes take these steps in any order. A file that is not read as a JSON object,
-- as while its payload is not written, reads as `none`.
pub mod Alone
pub mod Exclusion
pub mod Race
mod Tests
use gpt_market_neutral_crypt.Prelude.{
  ℕ, zero, suc, ◌+◌, ◌-◌, Bool, true, false, ◌||◌, ◌&&◌, Option, none, some, List, [], ◌∷◌, ltb,
  leb, ◌==◌, String, str_eq, if◌then◌else◌,
}
use gpt_market_neutral_crypt.Time.{Instant}

-- The raw `start_ts`: missing, a value that is no ISO stamp, or a stamp with the instant that it stands for.
pub data StartTs : Type 0 where
  missing : StartTs
  malformed : String → StartTs
  iso : String → Instant → StartTs

pub record Holder : Type 0 where
  pub pid : ℕ
  pub start_ts : StartTs

-- `_holder_age_s` and `_is_stale`: no age, a negative one, or one past the window.
stale_start : StartTs → Instant → ℕ → Bool
stale_start (iso _ start) now stale_after = ltb now start || leb stale_after (now - start)
stale_start _ now stale_after = true

unfoldable pub is_stale : Option Holder → Instant → ℕ → Bool
unfolding stale_start
is_stale none now stale_after = true
is_stale (some h) now stale_after = stale_start h.start_ts now stale_after

-- The raw values are compared, not the instants.
unfoldable pub same_start : StartTs → StartTs → Bool
same_start missing missing = true
same_start (malformed a) (malformed b) = str_eq a b
same_start (iso a _) (iso b _) = str_eq a b
same_start _ _ = false

-- The comparison of `_unlink_if_same`: only two objects that differ keep the file.
unfoldable pub may_unlink : Option Holder → Option Holder → Bool
unfolding same_start
may_unlink (some cur) (some seen) = cur.pid == seen.pid && same_start cur.start_ts seen.start_ts
may_unlink cur seen = true

-- The lock's directory entry, as an inode, the inodes' contents, and the next free inode.
pub record Disk : Type 0 where
  pub entry : Option ℕ
  pub content : ℕ → Option Holder
  pub next : ℕ

unfoldable pub read_lock : Disk → Option Holder
read_lock d = elim d.entry [ none ↦ none | some i ↦ d.content i ]

abbrev pub update {ℓ} : {A : Type ℓ} → ℕ → A → (ℕ → A) → ℕ → A
update i a f j = if i == j then a else f j

unfoldable pub unlink : Disk → Disk
unlink d = record d { entry = none }

-- Where a call of `try_acquire` stands: the rounds left, and the stale holder it has removed.
pub data Pc : Type 0 where
  creating : ℕ → Option Holder → Pc
  writing : ℕ → Option Holder → Pc
  reading : ℕ → Option Holder → Pc
  comparing : ℕ → Option Holder → Option Holder → Pc
  unlinking : ℕ → Option Holder → Pc
  acquired denied : Option Holder → Pc

-- One system call of a process whose payload is `me`. After eight rounds it reads and gives up.
pub step : Holder → Instant → ℕ → Pc → Disk → Pc × Disk
step me now stale_after (creating zero evicted) d = (denied (read_lock d), d)
step me now stale_after (creating (suc k) evicted) d = elim d.entry [
  | none ↦ (
    writing d.next evicted,
    record d { entry = some d.next; content = update d.next none d.content; next = suc d.next },
  )
  | some _ ↦ (reading k evicted, d)
]
step me now stale_after (writing i evicted) d =
    (acquired evicted, record d { content = update i (some me) d.content })
step me now stale_after (reading k evicted) d = (
  if is_stale (read_lock d) now stale_after
      then comparing k evicted (read_lock d)
      else denied (read_lock d),
  d,
)
step me now stale_after (comparing k evicted seen) d =
    (if may_unlink (read_lock d) seen then unlinking k seen else creating k evicted, d)
step me now stale_after (unlinking k seen) d = (creating k seen, unlink d)
step me now stale_after (acquired evicted) d = (acquired evicted, d)
step me now stale_after (denied holder) d = (denied holder, d)

abbrev pub start : Pc
start = creating 8 none

-- `release`
unfoldable pub release : Disk → Disk
release = unlink

-- A process: its payload and the instant that it was given.
pub record Process : Type 0 where
  pub me : Holder
  pub now : Instant

pub record World : Type 0 where
  pub disk : Disk
  pub pc : ℕ → Pc

module _ (process : ℕ → Process) (stale_after : ℕ) where
  -- Process `i` takes its next step.
  pub take_step : ℕ → World → World
  take_step i w =
      let (pc', disk') = step (process i).me (process i).now stale_after (w.pc i) w.disk in
      record { disk = disk'; pc = update i pc' w.pc }

  -- A schedule names the process of each step.
  pub run : List ℕ → World → World
  run [] w = w
  run (i ∷ schedule) w = run schedule (take_step i w)
