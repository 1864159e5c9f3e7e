-- ===== src/Multi/Exit.antt =====
-- harness/src/multi/driver.ts: what the exit code of a run tells of the saved state.
use muti_repo_workspace.Prelude.{
  ℕ, String, true, ◌||◌, Option, none, some, List, [], ◌∷◌, ◌≡◌, refl, arith, eq_iff,
}
use muti_repo_workspace.Multi.{
  RepoConfig, WorkspaceConfig, TicketState, DriverArgs, is_published, was_published,
  resolve_resumed_instruction,
}
use muti_repo_workspace.Multi.Actions.{Host, Machine, ◌>>=◌, pure, load_state, save_state}
use muti_repo_workspace.Multi.Driver.{
  new_state, load_or_start, run_todo, todo_of, run_loaded, drive, branch_of, purpose_of,
}
use muti_repo_workspace.Multi.Triples.{if-Ensures, Ends, Ensures, bind-Ensures, Ends-map}
use muti_repo_workspace.Multi.Recorded.{has_outcome, selects, saves}
use muti_repo_workspace.Multi.Told.{Tells, Told, run_todo-Told}

was_published-outcome :
    (state : TicketState) (n : String) → was_published state n ≡ has_outcome is_published state n
unfolding was_published has_outcome
was_published-outcome state n = ground arith

pub todo_of-covers :
    (state : TicketState) (repos : List RepoConfig) (n : String)
    → selects n repos ≡ true
    → has_outcome is_published state n || selects n (todo_of state repos) ≡ true
unfolding todo_of
todo_of-covers state [] n h = cc
todo_of-covers state (r ∷ rs) n h =
    ground (arith, eq_iff r.name n, was_published-outcome state r.name, todo_of-covers state rs n)

pub todo_of-selects :
    (state : TicketState) (repos : List RepoConfig) (n : String)
    → selects n (todo_of state repos) ≡ true
    → selects n repos ≡ true
unfolding todo_of
todo_of-selects state [] n h = h
todo_of-selects state (r ∷ rs) n h = ground (arith, todo_of-selects state rs n)

abbrev adopted : TicketState → String → TicketState
adopted state given = record state { instruction = (resolve_resumed_instruction state given).0 }

module _ {W : Type 0} (host : Host W) where
  saved_state :
      (state : TicketState)
      → Ensures
          (λ s. Unit)
          (λ st s. s.saved ≡ some st)
          (λ s. Unit)
          (save_state host state >>= (λ _. pure state))
  saved_state state s _ =
      Ends-map (λ st s. (s.saved ≡ some st) × (st ≡ state)) (λ st s. s.saved ≡ some st) (λ s. Unit)
        (λ st s (saved, same). saved) _ (saves host state s tt)

  pub load_or_start-Saves :
      (args : DriverArgs) (branch purpose : String) (found : Option TicketState)
      → Ensures
          (λ s. s.saved ≡ found)
          (λ st s. s.saved ≡ some st)
          (λ s. Unit)
          (load_or_start host args branch purpose found)
  unfolding load_or_start pure
  load_or_start-Saves args branch purpose none =
      λ s start. saved_state (new_state args branch purpose) s tt
  load_or_start-Saves args branch purpose (some state) =
      if-Ensures (λ s. s.saved ≡ some state) (λ st s. s.saved ≡ some st) (λ s. Unit)
        (resolve_resumed_instruction state args.instruction).1 _ (pure state)
        (λ s start. saved_state (adopted state args.instruction) s tt) (λ s start. start)

  run_loaded-Told :
      (max : ℕ) (args : DriverArgs) (branch purpose : String) (selected : List RepoConfig)
      (found : Option TicketState)
      → Ensures
          (λ s. s.saved ≡ found)
          (Told host selected)
          (λ s. Unit)
          (run_loaded host max args branch purpose selected found)
  unfolding run_loaded
  run_loaded-Told max args branch purpose selected found =
      bind-Ensures (λ s. s.saved ≡ found) (λ st s. s.saved ≡ some st) (Told host selected)
        (λ s. Unit) (load_or_start host args branch purpose found)
        (λ state. run_todo host max args branch purpose state (todo_of state selected))
        (load_or_start-Saves args branch purpose found)
        (λ state.
          run_todo-Told host selected max args branch purpose state (todo_of state selected)
            (todo_of-covers state selected) (todo_of-selects state selected))

  -- Unless an exception ends it, a run on the selected repos leaves a saved state of which the exit code
  -- tells the truth: 0 only if every selected repo is recorded as published, or one of them as
  -- declined; 1 only if one of them is recorded as failed or as not ready; and no other code.
  pub drive-Tells :
      (max : ℕ) (args : DriverArgs) (workspace : WorkspaceConfig) (selected : List RepoConfig)
      (s : Machine W)
      → Ends
          (λ code s'. (st : TicketState) × (s'.saved ≡ some st) × Tells selected st code)
          (λ s'. Unit)
          (drive host max args workspace selected s)
  unfolding drive load_state
  drive-Tells max args workspace selected s =
      bind-Ensures (λ s. Unit) (λ found s. s.saved ≡ found) (Told host selected) (λ s. Unit)
        load_state
        (run_loaded host max args (branch_of args workspace) (purpose_of args workspace) selected)
        (λ s start. refl)
        (run_loaded-Told max args (branch_of args workspace) (purpose_of args workspace) selected) s
        tt
