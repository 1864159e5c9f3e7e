-- ===== src/Lock.antt =====
-- harness/src/spined/lock.ts: `acquireLock` and `release` of two daemons of one ticket, one file
-- system call at a time. The lockfile is found by its path; a write goes to the file that was opened, and is
-- seen at the path only while that file is there.
pub mod Exclusion
pub mod Takeover
use muti_repo_workspace.Prelude.{
  ℕ, Bool, true, false, Option, none, some, List, [], ◌∷◌, ◌==◌, if◌then◌else◌,
}

-- What is at the lockfile's path: created and not yet written by a pid, written with a pid, or anything
-- that does not parse.
pub data LockFile : Type 0 where
  empty_of : ℕ → LockFile
  held_by : ℕ → LockFile
  corrupt : LockFile

-- Where a daemon stands in `acquireLock` or `release`, before its next call.
pub data Phase : Type 0 where
  creating : Phase
  writing : Phase
  reading : Phase
  probing : ℕ → Phase
  renaming : Phase
  recreating : Phase
  holding : Phase
  removing : Phase
  released : Phase
  refused : Phase

-- `tryCreate`, up to the open with `O_EXCL`; `lost` is what follows when the file exists.
unfoldable pub try_create : ℕ → Phase → Option LockFile → Phase × Option LockFile
try_create me lost none = (writing, some (empty_of me))
try_create me lost (some f) = (lost, some f)

-- The write of the pid, by the descriptor of the file that `me` created.
unfoldable pub write_pid : ℕ → Option LockFile → Option LockFile
write_pid me none = none
write_pid me (some (empty_of p)) = if p == me then some (held_by me) else some (empty_of p)
write_pid me (some (held_by p)) = some (held_by p)
write_pid me (some corrupt) = some corrupt

-- `readLockPid`: null for a file that is absent or does not parse.
unfoldable pub read_lock_pid : Option LockFile → Option ℕ
read_lock_pid (some (held_by p)) = some p
read_lock_pid _ = none

unfoldable pub on_pid : Option ℕ → Phase
on_pid none = refused
on_pid (some p) = probing p

-- The rename of `takeOverStaleLock`, which takes whatever is at the path.
unfoldable pub take_over_stale_lock : Option LockFile → Phase × Option LockFile
take_over_stale_lock none = (refused, none)
take_over_stale_lock (some f) = (recreating, none)

-- `release` removes the file if it reads its own pid.
unfoldable pub releases : ℕ → Option ℕ → Phase
releases me none = released
releases me (some p) = if p == me then removing else released

-- The next call of the daemon with pid `me`; `is_pid_alive` asks the system.
unfoldable pub step : (ℕ → Bool) → ℕ → Phase → Option LockFile → Phase × Option LockFile
step is_pid_alive me creating f = try_create me reading f
step is_pid_alive me writing f = (holding, write_pid me f)
step is_pid_alive me reading f = (on_pid (read_lock_pid f), f)
step is_pid_alive me (probing p) f = (if is_pid_alive p then refused else renaming, f)
step is_pid_alive me renaming f = take_over_stale_lock f
step is_pid_alive me recreating f = try_create me refused f
step is_pid_alive me holding f = (releases me (read_lock_pid f), f)
step is_pid_alive me removing f = (released, none)
step is_pid_alive me released f = (released, f)
step is_pid_alive me refused f = (refused, f)

-- The two daemons and the path.
pub record Daemons : Type 0 where
  pub first : Phase
  pub second : Phase
  pub file : Option LockFile

pub data Turn : Type 0 where
  one two : Turn

unfoldable pub advance : (ℕ → Bool) → ℕ → ℕ → Turn → Daemons → Daemons
advance is_pid_alive a b one s =
    let (phase, f) = step is_pid_alive a s.first s.file in record s { first = phase; file = f }
advance is_pid_alive a b two s =
    let (phase, f) = step is_pid_alive b s.second s.file in record s { second = phase; file = f }

-- The daemons take their calls in the order of the list.
unfoldable pub interleave : (ℕ → Bool) → ℕ → ℕ → List Turn → Daemons → Daemons
interleave is_pid_alive a b [] s = s
interleave is_pid_alive a b (t ∷ ts) s =
    interleave is_pid_alive a b ts (advance is_pid_alive a b t s)

abbrev pub starting : Option LockFile → Daemons
starting f = record { first = creating; second = creating; file = f }

abbrev pub has_lock : Phase → Bool
has_lock holding = true
has_lock _ = false
