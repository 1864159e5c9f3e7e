-- ===== src/Tests/Locks.antt =====
-- Runs of two daemons of harness/src/spined/lock.ts.
use muti_repo_workspace.Prelude.{
  ℕ, Bool, false, ◌&&◌, some, none, [], ◌∷◌, ◌≡◌, ◌≢◌, refl, leb, arith,
}
use muti_repo_workspace.Lock.{held_by, holding, one, two, interleave, starting, has_lock}
use muti_repo_workspace.Lock.Exclusion.{interleave_exclusive}
use muti_repo_workspace.Lock.Takeover.{late_rename, interleave-late_rename}

-- The pids from 100 on are alive.
abbrev alive : ℕ → Bool
alive p = leb 100 p

interleave-late_rename_example :
    interleave alive 101 102 late_rename (starting (some (held_by 7)))
    ≡ record { first = holding; second = holding; file = some (held_by 102) }
interleave-late_rename_example = interleave-late_rename alive 101 102 7 refl

abbrev first_pid : ℕ
first_pid = 101

apart : first_pid ≢ 102
apart e = omega arith

interleave_exclusive_example :
    has_lock (interleave alive 101 102 (one ∷ two ∷ one ∷ two ∷ []) (starting none)).first
      && has_lock (interleave alive 101 102 (one ∷ two ∷ one ∷ two ∷ []) (starting none)).second
    ≡ false
interleave_exclusive_example =
    interleave_exclusive alive 101 102 apart refl refl (one ∷ two ∷ one ∷ two ∷ []) none tt
