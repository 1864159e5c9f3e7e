-- ===== src/Multi/Driver.antt =====
-- harness/src/multi/driver.ts: `runDriver`. What it prints is left out.
use Prim.Native.String
use muti_repo_workspace.Prelude.{
  ℕ, String, Bool, true, false, not, Option, none, some, List, [], ◌∷◌, put, nonempty, length,
  if◌then◌else◌,
}
use muti_repo_workspace.Spine.Effects.{Attempt, returned}
use muti_repo_workspace.Orchestrator.{Pipeline, OrchestratorOptions, Run}
use muti_repo_workspace.Orchestrator.FixLoop.{run_orchestrator}
use muti_repo_workspace.Multi.{
  RepoConfig, WorkspaceConfig, RepoOutcome, declined, pending, RepoState, TicketState, DriverArgs,
  WorkItem, is_published, is_declined, was_published, resolve_resumed_instruction, select_repos,
  result_state,
}
use muti_repo_workspace.Multi.Actions.{
  Host, Action, ◌>>=◌, pure, reads, calls, load_state, save_state,
}

-- The `new` state of a ticket.
abbrev pub new_state : DriverArgs → String → String → TicketState
new_state args branch purpose = record {
  ticket = args.ticket;
  instruction = args.instruction;
  branch = branch;
  purpose = purpose;
  repos = [];
}

abbrev pub pending_state : String → String → RepoState
pending_state branch worktree = record {
  outcome = pending;
  sha = none;
  pr_url = none;
  reason = none;
  branch = some branch;
  worktree = some worktree;
}

abbrev pub plan_declined_state : String → String → RepoState
plan_declined_state branch worktree = record {
  outcome = declined;
  sha = none;
  pr_url = none;
  reason = some "combined plan declined";
  branch = some branch;
  worktree = some worktree;
}

abbrev pub options : String → WorkItem → OrchestratorOptions
options instruction it = record {
  instruction = instruction;
  plan = some it.plan;
  base_sha = some it.base_sha;
}

-- A human's decline is a clean stop.
abbrev pub exit_code : RepoOutcome → ℕ
exit_code o = if is_declined o then 0 else 1

-- The selected repos that are not published yet.
unfoldable pub todo_of : TicketState → List RepoConfig → List RepoConfig
unfolding was_published
todo_of state [] = []
todo_of state (r ∷ rs) =
    let rest = todo_of state rs in if was_published state r.name then rest else r ∷ rest

abbrev pub purpose_of : DriverArgs → WorkspaceConfig → String
purpose_of args workspace =
    if nonempty args.purpose then args.purpose else workspace.default_purpose

abbrev pub branch_of : DriverArgs → WorkspaceConfig → String
branch_of args workspace = String.◌++◌ workspace.branch_prefix args.ticket

module _ {W : Type 0} (host : Host W) where
  -- `setRepoState`, and the state that it leaves.
  unfoldable pub set_repo_state : TicketState → String → RepoState → Action W TicketState
  unfolding ◌>>=◌ save_state pure
  set_repo_state state repo entry =
      let state' = record state { repos = put repo entry state.repos } in
      save_state host state' >>= (λ _. pure state')

  -- Both branches on `loadState`.
  unfoldable pub load_or_start :
      DriverArgs → String → String → Option TicketState → Action W TicketState
  unfolding ◌>>=◌ save_state pure resolve_resumed_instruction
  load_or_start args branch purpose none =
      let state = new_state args branch purpose in save_state host state >>= (λ _. pure state)
  load_or_start args branch purpose (some state) =
      let resolved = resolve_resumed_instruction state args.instruction in
      let state' = record state { instruction = resolved.0 } in
      if resolved.1 then save_state host state' >>= (λ _. pure state') else pure state

  -- The worktree and the plan of each repo, and each repo recorded as pending.
  unfoldable pub prepare :
      DriverArgs
      → String
      → String
      → TicketState
      → List RepoConfig
      → Action W (TicketState × List WorkItem)
  unfolding ◌>>=◌ set_repo_state pure calls
  prepare args branch purpose state [] = pure (state, [])
  prepare args branch purpose state (repo ∷ repos) = do
    setup ← calls (host.exec_setup_worktree repo args.ticket branch purpose)
    state1 ← set_repo_state state repo.name (pending_state branch setup.repo_dir)
    plan ← calls (host.run_plan state.instruction setup.repo_dir)
    (state2, work) ← prepare args branch purpose state1 repos
    let it : WorkItem = record {
      name = repo.name;
      repo_dir = setup.repo_dir;
      plan = plan;
      base_sha = setup.base_sha;
    }
    pure (state2, it ∷ work)

  unfoldable pub decline_all : String → TicketState → List WorkItem → Action W TicketState
  unfolding ◌>>=◌ set_repo_state pure
  decline_all branch state [] = pure state
  decline_all branch state (it ∷ work) = do
    state' ← set_repo_state state it.name (plan_declined_state branch it.repo_dir)
    decline_all branch state' work

  -- The pipeline of a repo, whose plan gate was taken for all repos before.
  abbrev pub approved_pipeline : WorkItem → Pipeline W
  approved_pipeline it = record (host.pipeline it.repo_dir it.name) {
    approve_plan = λ p w. (returned true, w);
  }

  -- A promise that rejects is a result here.
  unfoldable pub run_repo : ℕ → String → WorkItem → Action W Run
  unfolding run_orchestrator calls
  run_repo max_fixes instruction it = calls (λ w.
      let (run, w') =
        run_orchestrator (approved_pipeline it) max_fixes (options instruction it) w in
      (returned run, w'))

  -- The repos one after the other, up to the first that is not published.
  unfoldable pub run_work : ℕ → String → TicketState → List WorkItem → Action W ℕ
  unfolding ◌>>=◌ run_repo set_repo_state result_state pure
  run_work max_fixes branch state [] = pure 0
  run_work max_fixes branch state (it ∷ work) = do
    run ← run_repo max_fixes state.instruction it
    let entry = result_state run branch it.repo_dir
    state' ← set_repo_state state it.name entry
    let rest = run_work max_fixes branch state' work
    if is_published entry.outcome then rest else pure (exit_code entry.outcome)

  unfoldable pub on_approval : ℕ → String → TicketState → List WorkItem → Bool → Action W ℕ
  unfolding ◌>>=◌ decline_all run_work pure
  on_approval max_fixes branch state work true = run_work max_fixes branch state work
  on_approval max_fixes branch state work false = decline_all branch state work >>= (λ _. pure 0)

  unfoldable pub run_todo :
      ℕ → DriverArgs → String → String → TicketState → List RepoConfig → Action W ℕ
  unfolding ◌>>=◌ prepare on_approval pure calls
  run_todo max_fixes args branch purpose state [] = pure 0
  run_todo max_fixes args branch purpose state (repo ∷ todo) = do
    (state', work) ← prepare args branch purpose state (repo ∷ todo)
    approved ← calls (host.human_approval (length work))
    on_approval max_fixes branch state' work approved

  -- The part of `runDriver` behind `loadState`.
  unfoldable pub run_loaded :
      ℕ → DriverArgs → String → String → List RepoConfig → Option TicketState → Action W ℕ
  unfolding ◌>>=◌ load_or_start run_todo todo_of
  run_loaded max_fixes args branch purpose selected found =
      load_or_start args branch purpose found
      >>= (λ state. run_todo max_fixes args branch purpose state (todo_of state selected))

  unfoldable pub drive : ℕ → DriverArgs → WorkspaceConfig → List RepoConfig → Action W ℕ
  unfolding ◌>>=◌ load_state run_loaded
  drive max_fixes args workspace selected =
      load_state
      >>= run_loaded max_fixes args (branch_of args workspace) (purpose_of args workspace) selected

  -- The check of the ticket id.
  abbrev pub fits_pattern : WorkspaceConfig → String → Attempt Bool
  fits_pattern workspace ticket = elim workspace.ticket_id_pattern [
    | none ↦ returned true
    | some p ↦ if nonempty p then host.matches p ticket else returned true
  ]

  unfoldable pub on_ticket : ℕ → DriverArgs → WorkspaceConfig → List RepoConfig → Bool → Action W ℕ
  unfolding ◌>>=◌ drive select_repos reads pure
  on_ticket max_fixes args workspace repos false = pure 2
  on_ticket max_fixes args workspace repos true = do
    selected ← reads (λ w. select_repos repos args.repos)
    drive max_fixes args workspace selected

  -- `MAX_FIX_ATTEMPTS` is an argument; the answer is the exit code.
  unfoldable pub run_driver : ℕ → DriverArgs → Action W ℕ
  unfolding ◌>>=◌ on_ticket reads pure
  run_driver max_fixes args =
      if not (nonempty args.ticket)
      then pure 2
      else if not (nonempty args.instruction)
      then pure 2
      else do
        workspace ← reads host.load_workspace
        repos ← reads host.load_repos
        fits ← reads (λ w. fits_pattern workspace args.ticket)
        on_ticket max_fixes args workspace repos fits
