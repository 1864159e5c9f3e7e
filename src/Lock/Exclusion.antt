-- ===== src/Lock/Exclusion.antt =====
-- When no lock is stale, `acquireLock` of harness/src/spined/lock.ts excludes: at most one daemon holds.
use muti_repo_workspace.Prelude.{
  ℕ, Bool, true, false, ◌&&◌, some, none, Option, List, [], ◌∷◌, ◌≡◌, ◌≢◌, refl, ap, sym, subst,
  Bool-cases, inl, inr, arith, ◌==◌,
}
use muti_repo_workspace.Lock.{
  LockFile, held_by, empty_of, corrupt, Phase, creating, writing, reading, probing, renaming,
  recreating, holding, removing, released, refused, try_create, write_pid, read_lock_pid, on_pid,
  releases, step, Daemons, Turn, one, two, advance, interleave, starting, has_lock,
}

same : (n : ℕ) → n == n ≡ true
same n = ground arith

module _ (is_pid_alive : ℕ → Bool) where
  -- No dead pid is in the file.
  abbrev pub IsLive : Option LockFile → Type 0
  IsLive (some (held_by p)) = is_pid_alive p ≡ true
  IsLive _ = Unit

  -- What the file is while the daemon stands there.
  abbrev Fits : ℕ → Phase → Option LockFile → Type 0
  Fits me writing f = f ≡ some (empty_of me)
  Fits me holding f = f ≡ some (held_by me)
  Fits me removing f = f ≡ some (held_by me)
  Fits me (probing p) f = is_pid_alive p ≡ true
  Fits me renaming f = ⊥
  Fits me recreating f = ⊥
  Fits me _ f = Unit

  releases-Fits : (me p : ℕ) → Fits me (releases me (some p)) (some (held_by p))
  unfolding releases
  releases-Fits me p = elim (Bool-cases (p == me)) [
    | inl mine ↦ let e : p ≡ me = ground arith in rw mine (ap (λ n. some (held_by n)) e)
    | inr other ↦ rw other tt
  ]

  step-Fits :
      (me : ℕ) (ph : Phase) (f : Option LockFile)
      → is_pid_alive me ≡ true
      → IsLive f
      → Fits me ph f
      → Fits me (step is_pid_alive me ph f).0 (step is_pid_alive me ph f).1
        × IsLive (step is_pid_alive me ph f).1
  unfolding step try_create write_pid read_lock_pid on_pid
  step-Fits me creating none live well fits = (refl, tt)
  step-Fits me creating (some f) live well fits = (tt, well)
  step-Fits me writing f live well fits =
      subst (λ g. (write_pid me g ≡ some (held_by me)) × IsLive (write_pid me g)) (sym fits)
        (rw (same me) (refl, live))
  step-Fits me reading none live well fits = (tt, tt)
  step-Fits me reading (some (empty_of p)) live well fits = (tt, tt)
  step-Fits me reading (some (held_by p)) live well fits = (well, well)
  step-Fits me reading (some corrupt) live well fits = (tt, tt)
  step-Fits me (probing p) f live well fits = rw fits (tt, well)
  step-Fits me renaming f live well fits = absurd fits
  step-Fits me recreating f live well fits = absurd fits
  step-Fits me holding f live well fits =
      subst (λ g. Fits me (releases me (read_lock_pid g)) g × IsLive g) (sym fits)
        (releases-Fits me me, live)
  step-Fits me removing f live well fits = (tt, tt)
  step-Fits me released f live well fits = (tt, well)
  step-Fits me refused f live well fits = (tt, well)

  -- A daemon that does not own the file is indifferent to it.
  Fits-change :
      (me : ℕ) (ph : Phase) (f f' : Option LockFile)
      → f ≢ some (empty_of me)
      → f ≢ some (held_by me)
      → Fits me ph f
      → Fits me ph f'
  Fits-change me creating f f' p q fits = tt
  Fits-change me writing f f' p q fits = absurd (p fits)
  Fits-change me reading f f' p q fits = tt
  Fits-change me (probing r) f f' p q fits = fits
  Fits-change me renaming f f' p q fits = fits
  Fits-change me recreating f f' p q fits = fits
  Fits-change me holding f f' p q fits = absurd (q fits)
  Fits-change me removing f f' p q fits = absurd (q fits)
  Fits-change me released f f' p q fits = tt
  Fits-change me refused f f' p q fits = tt

  step_other :
      (me other : ℕ) (ph ph' : Phase) (f : Option LockFile)
      → me ≢ other
      → Fits me ph f
      → Fits other ph' f
      → Fits other ph' (step is_pid_alive me ph f).1
  unfolding step try_create
  step_other me other creating ph' none apart fits fits' =
      Fits-change other ph' none _ (λ e. cc) (λ e. cc) fits'
  step_other me other creating ph' (some f) apart fits fits' = fits'
  step_other me other writing ph' f apart fits fits' =
      Fits-change other ph' f _ (λ e. ground arith) (λ e. ground arith) fits'
  step_other me other reading ph' f apart fits fits' = fits'
  step_other me other (probing p) ph' f apart fits fits' = fits'
  step_other me other renaming ph' f apart fits fits' = absurd fits
  step_other me other recreating ph' f apart fits fits' = absurd fits
  step_other me other holding ph' f apart fits fits' = fits'
  step_other me other removing ph' f apart fits fits' =
      Fits-change other ph' f _ (λ e. ground arith) (λ e. ground arith) fits'
  step_other me other released ph' f apart fits fits' = fits'
  step_other me other refused ph' f apart fits fits' = fits'

  has_lock-Fits :
      (me : ℕ) (p : Phase) (f : Option LockFile)
      → Fits me p f
      → has_lock p ≡ true
      → f ≡ some (held_by me)
  has_lock-Fits me creating f fits has = cc
  has_lock-Fits me writing f fits has = cc
  has_lock-Fits me reading f fits has = cc
  has_lock-Fits me (probing r) f fits has = cc
  has_lock-Fits me renaming f fits has = cc
  has_lock-Fits me recreating f fits has = cc
  has_lock-Fits me holding f fits has = fits
  has_lock-Fits me removing f fits has = cc
  has_lock-Fits me released f fits has = cc
  has_lock-Fits me refused f fits has = cc

  abbrev Fit : ℕ → ℕ → Daemons → Type 0
  Fit a b s = Fits a s.first s.file × Fits b s.second s.file × IsLive s.file

  module _ (a b : ℕ) (apart : a ≢ b) (a_live : is_pid_alive a ≡ true)
      (b_live : is_pid_alive b ≡ true) where
    advance-Fit : (t : Turn) (s : Daemons) → Fit a b s → Fit a b (advance is_pid_alive a b t s)
    unfolding advance
    advance-Fit one s (fits, fits', well) =
        let (next, well') = step-Fits a s.first s.file a_live well fits in
        (next, step_other a b s.first s.second s.file apart fits fits', well')
    advance-Fit two s (fits, fits', well) =
        let (next, well') = step-Fits b s.second s.file b_live well fits' in
        (step_other b a s.second s.first s.file (λ e. apart (sym e)) fits' fits, next, well')

    interleave-Fit :
        (ts : List Turn) (s : Daemons) → Fit a b s → Fit a b (interleave is_pid_alive a b ts s)
    unfolding interleave
    interleave-Fit [] s fit = fit
    interleave-Fit (t ∷ ts) s fit =
        interleave-Fit ts (advance is_pid_alive a b t s) (advance-Fit t s fit)

    Fits-exclusive :
        (p q : Phase) (f : Option LockFile)
        → Fits a p f
        → Fits b q f
        → has_lock p && has_lock q ≡ false
    Fits-exclusive p q f fits fits' = elim (Bool-cases (has_lock p && has_lock q)) [
      | inr free ↦ free
      | inl both ↦
          let mine = has_lock-Fits a p f fits (ground arith) in
          let yours = has_lock-Fits b q f fits' (ground arith) in
          let e : a ≡ b = ground arith in absurd (apart e)
    ]

    -- When the lockfile is absent, does not parse or holds a living pid, and both daemons live with
    -- different pids, then however their calls interleave, through acquiring and releasing, they never
    -- hold the lock at the same time.
    pub interleave_exclusive :
        (ts : List Turn) (f : Option LockFile)
        → IsLive f
        → let s = interleave is_pid_alive a b ts (starting f) in
          has_lock s.first && has_lock s.second ≡ false
    interleave_exclusive ts f well =
        let (fits, fits', _) = interleave-Fit ts (starting f) (tt, tt, well) in
        Fits-exclusive _ _ _ fits fits'
