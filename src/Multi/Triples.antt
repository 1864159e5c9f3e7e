-- ===== src/Multi/Triples.antt =====
-- What holds behind a chain of the calls of harness/src/multi/driver.ts: when it ends with a value, and
-- when an exception ends it.
use muti_repo_workspace.Prelude.{Bool, true, false, if◌then◌else◌, Option, some, ◌≡◌, refl}
use muti_repo_workspace.Spine.Effects.{Attempt, returned, threw}
use muti_repo_workspace.Multi.{TicketState}
use muti_repo_workspace.Multi.Actions.{
  Host, Machine, Action, after, ◌>>=◌, reads, calls, written, save_state,
}

module _ {W : Type 0} where
  -- `Q` of a value and the machine behind it, `R` of the machine behind an exception.
  abbrev pub Ends :
      {A : Type 0}
      → (A → Machine W → Type 0)
      → (Machine W → Type 0)
      → Attempt A × Machine W
      → Type 0
  Ends Q R (returned a, s) = Q a s
  Ends Q R (threw message, s) = R s

  abbrev pub Ensures :
      {A : Type 0}
      → (Machine W → Type 0)
      → (A → Machine W → Type 0)
      → (Machine W → Type 0)
      → Action W A
      → Type 0
  Ensures P Q R m = (s : Machine W) → P s → Ends Q R (m s)

  module _ {A B : Type 0} (P : Machine W → Type 0) (Q : A → Machine W → Type 0)
      (Q' : B → Machine W → Type 0) (R : Machine W → Type 0) where
    pub bind-Ensures :
        (m : Action W A) (f : A → Action W B)
        → Ensures P Q R m
        → ((a : A) → Ensures (Q a) Q' R (f a))
        → Ensures P Q' R (m >>= f)
    unfolding ◌>>=◌
    bind-Ensures m f first rest s p = go (m s) (first s p)
      where
        go : (r : Attempt A × Machine W) → Ends Q R r → Ends Q' R (after r f)
        go (returned a, s') q = rest a s' q
        go (threw message, s') r = r

  -- Two descriptions of one chain, of which the first says what an exception leaves.
  pub both-Ensures :
      {A : Type 0} (P P' : Machine W → Type 0) (Q Q' : A → Machine W → Type 0)
      (R R' : Machine W → Type 0) (m : Action W A)
      → Ensures P Q R m
      → Ensures P' Q' R' m
      → (s : Machine W) → P s
      → P' s
      → Ends (λ a s. Q a s × Q' a s) R (m s)
  both-Ensures {A} P P' Q Q' R R' m h k s p p' = go (m s) (h s p) (k s p')
    where
      go :
          (r : Attempt A × Machine W) → Ends Q R r → Ends Q' R' r → Ends (λ a s. Q a s × Q' a s) R r
      go (returned a, s') q q' = (q, q')
      go (threw message, s') q q' = q

  pub if-Ensures :
      {A : Type 0} (P : Machine W → Type 0) (Q : A → Machine W → Type 0) (R : Machine W → Type 0)
      (b : Bool) (m n : Action W A)
      → Ensures P Q R m
      → Ensures P Q R n
      → Ensures P Q R (if b then m else n)
  if-Ensures P Q R true m n h k = h
  if-Ensures P Q R false m n h k = k

  -- The same, where each branch may use what the test says.
  pub test-Ensures :
      {A : Type 0} (P : Machine W → Type 0) (Q : A → Machine W → Type 0) (R : Machine W → Type 0)
      (b : Bool) (m n : Action W A)
      → (b ≡ true → Ensures P Q R m)
      → (b ≡ false → Ensures P Q R n)
      → Ensures P Q R (if b then m else n)
  test-Ensures P Q R true m n h k = h refl
  test-Ensures P Q R false m n h k = k refl

  pub Ends-map :
      {A : Type 0} (Q Q' : A → Machine W → Type 0) (R : Machine W → Type 0)
      → ((a : A) (s : Machine W) → Q a s → Q' a s)
      → (r : Attempt A × Machine W) → Ends Q R r
      → Ends Q' R r
  Ends-map Q Q' R f (returned a, s) h = f a s h
  Ends-map Q Q' R f (threw message, s) h = h

  -- What the state file says, behind a call that does not write it.
  abbrev pub Kept : (Option TicketState → Type 0) → Machine W → Type 0
  Kept K s = K s.saved

  module _ {A : Type 0} (K : Option TicketState → Type 0) where
    pub calls-Ensures :
        (f : W → Attempt A × W) → Ensures (Kept K) (λ a s. Kept K s) (Kept K) (calls f)
    unfolding calls
    calls-Ensures f s k = go (f s.world).0
      where
        go :
            (r : Attempt A)
            → Ends (λ a s'. Kept K s') (Kept K) (r, record s { world = (f s.world).1 })
        go (returned a) = k
        go (threw message) = k

    pub reads-Ensures : (f : W → Attempt A) → Ensures (Kept K) (λ a s. Kept K s) (Kept K) (reads f)
    unfolding reads
    reads-Ensures f s k = go (f s.world)
      where
        go : (r : Attempt A) → Ends (λ a s'. Kept K s') (Kept K) (r, s)
        go (returned a) = k
        go (threw message) = k

  pub save_state-Ensures :
      (host : Host W) (state : TicketState) (K : Option TicketState → Type 0)
      → Ensures (Kept K) (λ _ s. s.saved ≡ some state) (Kept K) (save_state host state)
  unfolding save_state
  save_state-Ensures host state K s k = go (host.write_state state s.world)
    where
      go :
          (r : Attempt (Unit {0}) × W)
          → Ends (λ _ s'. s'.saved ≡ some state) (Kept K) (written host state r s)
      go (returned _, w) = refl
      go (threw message, w) = k

  pub Ends-machine :
      {A : Type 0} (R : Machine W → Type 0) (r : Attempt A × Machine W)
      → Ends (λ a s. R s) R r
      → R r.1
  Ends-machine R (returned a, s) h = h
  Ends-machine R (threw message, s) h = h
