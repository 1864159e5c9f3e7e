-- ===== src/Lock/Takeover.antt =====
-- The takeover of a stale lock of harness/src/spined/lock.ts by two daemons.
use muti_repo_workspace.Prelude.{ℕ, Bool, true, false, some, List, [], ◌∷◌, ◌≡◌, refl, arith, ◌==◌}
use muti_repo_workspace.Lock.{
  held_by, holding, try_create, write_pid, read_lock_pid, on_pid, take_over_stale_lock, step, Turn,
  one, two, advance, interleave, starting,
}

-- Both probe the dead pid; the second daemon renames only after the first has its fresh lock.
abbrev pub late_rename : List Turn
late_rename = one ∷ one ∷ one ∷ two ∷ two ∷ two ∷ one ∷ one ∷ one ∷ two ∷ two ∷ two ∷ []

same : (n : ℕ) → n == n ≡ true
same n = ground arith

-- From a lockfile of a dead pid, two daemons can both come to hold the lock, whatever their
-- pids: the one that renames last takes the fresh lock of the other out of the way.
pub interleave-late_rename :
    (is_pid_alive : ℕ → Bool) (a b dead : ℕ)
    → is_pid_alive dead ≡ false
    → interleave is_pid_alive a b late_rename (starting (some (held_by dead)))
      ≡ record { first = holding; second = holding; file = some (held_by b) }
unfolding interleave advance step try_create read_lock_pid on_pid take_over_stale_lock write_pid
interleave-late_rename is_pid_alive a b dead gone = rw (gone, same a, same b) refl
