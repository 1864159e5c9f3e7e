-- ===== src/Multi/Kept.antt =====
-- harness/src/multi/driver.ts: what a run leaves of a repo that was published before it.
use muti_repo_workspace.Prelude.{
  ℕ, String, Bool, true, false, Bool-cases, not, Option, none, some, List, [], ◌∷◌, Dict, lookup,
  put, lookup-put, All, any, length, str_eq, nonempty, inl, inr, ◌≡◌, refl, arith, eq_iff, subst,
}
use muti_repo_workspace.Spine.Effects.{returned}
use muti_repo_workspace.Orchestrator.FixLoop.{run_orchestrator}
use muti_repo_workspace.Multi.{
  RepoConfig, WorkspaceConfig, RepoState, TicketState, DriverArgs, WorkItem, is_published,
  is_published_entry, was_published, resolve_resumed_instruction, result_state, select_repos,
}
use muti_repo_workspace.Multi.Actions.{
  load_state, Host, Machine, ◌>>=◌, pure, reads, calls, save_state,
}
use muti_repo_workspace.Multi.Driver.{
  approved_pipeline, options, set_repo_state, load_or_start, prepare, decline_all, run_repo,
  run_work, on_approval, run_todo, todo_of, drive, fits_pattern, run_loaded, branch_of, purpose_of,
  on_ticket, run_driver, exit_code,
}
use muti_repo_workspace.Multi.Triples.{
  if-Ensures, Ensures, bind-Ensures, Kept, calls-Ensures, reads-Ensures, save_state-Ensures,
  Ends-machine,
}

any-lookup :
    (name : String) (m : Dict RepoState) (e : RepoState)
    → lookup name m ≡ some e
    → is_published e.outcome ≡ true
    → any is_published_entry m ≡ true
unfolding lookup
any-lookup name [] e h p = cc
any-lookup name ((j, v) ∷ m) e h p = ground (arith, any-lookup name m e)

resolve_resumed_instruction-shipped :
    (state : TicketState) (given : String)
    → any is_published_entry state.repos ≡ true
    → resolve_resumed_instruction state given ≡ (state.instruction, false)
unfolding resolve_resumed_instruction
resolve_resumed_instruction-shipped state given h = ground arith

was_published-known :
    (state : TicketState) (name : String) (e : RepoState)
    → lookup name state.repos ≡ some e
    → is_published e.outcome ≡ true
    → was_published state name ≡ true
unfolding was_published
was_published-known state name e known shipped = ground arith

-- The repo `name` has this entry, and the ticket this instruction.
abbrev pub Records : String → RepoState → String → TicketState → Type 0
Records name e instruction st = (lookup name st.repos ≡ some e) × (st.instruction ≡ instruction)

module _ {W : Type 0} (host : Host W) (name : String) (e : RepoState) (instruction : String) where
  abbrev Holds : Option TicketState → Type 0
  Holds o = (st : TicketState) × (o ≡ some st) × Records name e instruction st

  abbrev Holding : Machine W → Type 0
  Holding = Kept Holds

  abbrev Recording : TicketState → Machine W → Type 0
  Recording st s = Holding s × Records name e instruction st

  -- Saving a state that records the entry.
  saves :
      (state : TicketState)
      → Records name e instruction state
      → Ensures Holding Recording Holding (save_state host state >>= (λ _. pure state))
  unfolding pure
  saves state h =
      bind-Ensures Holding (λ _ s. s.saved ≡ some state) Recording Holding (save_state host state)
        (λ _. pure state) (save_state-Ensures host state Holds) (λ _ s same. ((state, same, h), h))

  set_repo_state-Ensures :
      (state : TicketState) (n : String) (entry : RepoState)
      → Records name e instruction state
      → str_eq n name ≡ false
      → Ensures Holding Recording Holding (set_repo_state host state n entry)
  unfolding set_repo_state
  set_repo_state-Ensures state n entry (known, same) other =
      saves (record state { repos = put n entry state.repos })
        (ground (arith, lookup-put n name entry state.repos), same)

  abbrev Others : List WorkItem → Type 0
  Others = All (λ (it : WorkItem). str_eq it.name name ≡ false)

  decline_all-Ensures :
      (branch : String) (state : TicketState) (work : List WorkItem)
      → Records name e instruction state
      → Others work
      → Ensures Holding Recording Holding (decline_all host branch state work)
  unfolding decline_all pure
  decline_all-Ensures branch state [] h k = λ s holding. (holding, h)
  decline_all-Ensures branch state (it ∷ work) h (other, k) =
      bind-Ensures Holding Recording Recording Holding _ _
        (set_repo_state-Ensures state it.name _ h other)
        (λ state' s (holding, h'). decline_all-Ensures branch state' work h' k s holding)

  run_repo-Ensures :
      (max : ℕ) (text : String) (it : WorkItem)
      → Ensures Holding (λ _ s. Holding s) Holding (run_repo host max text it)
  unfolding run_repo
  run_repo-Ensures max text it = calls-Ensures Holds (λ w.
      let (run, w') = run_orchestrator (approved_pipeline host it) max (options text it) w in
      (returned run, w'))

  run_work-Ensures :
      (max : ℕ) (branch : String) (state : TicketState) (work : List WorkItem)
      → Records name e instruction state
      → Others work
      → Ensures Holding (λ _ s. Holding s) Holding (run_work host max branch state work)
  unfolding run_work pure
  run_work-Ensures max branch state [] h k = λ s holding. holding
  run_work-Ensures max branch state (it ∷ work) h (other, k) =
      bind-Ensures Holding (λ _ s. Holding s) (λ _ s. Holding s) Holding
        (run_repo host max state.instruction it) _ (run_repo-Ensures max state.instruction it)
        (λ run.
          bind-Ensures Holding Recording (λ _ s. Holding s) Holding _ _
            (set_repo_state-Ensures state it.name (result_state run branch it.repo_dir) h other)
            (λ state' s (holding, h').
              if-Ensures Holding (λ _ s. Holding s) Holding
                (is_published (result_state run branch it.repo_dir).outcome)
                (run_work host max branch state' work)
                (pure (exit_code (result_state run branch it.repo_dir).outcome))
                (run_work-Ensures max branch state' work h' k) (λ s holding. holding) s holding))

  on_approval-Ensures :
      (max : ℕ) (branch : String) (state : TicketState) (work : List WorkItem) (approved : Bool)
      → Records name e instruction state
      → Others work
      → Ensures Holding (λ _ s. Holding s) Holding (on_approval host max branch state work approved)
  unfolding on_approval pure
  on_approval-Ensures max branch state work true h k = run_work-Ensures max branch state work h k
  on_approval-Ensures max branch state work false h k =
      bind-Ensures Holding Recording (λ _ s. Holding s) Holding _ _
        (decline_all-Ensures branch state work h k) (λ state' s (holding, h'). holding)

  abbrev Preparing : TicketState × List WorkItem → Machine W → Type 0
  Preparing (st, work) s = Recording st s × Others work

  abbrev Unpublished : List RepoConfig → Type 0
  Unpublished = All (λ (r : RepoConfig). str_eq r.name name ≡ false)

  prepare-Ensures :
      (args : DriverArgs) (branch purpose : String) (state : TicketState) (repos : List RepoConfig)
      → Records name e instruction state
      → Unpublished repos
      → Ensures Holding Preparing Holding (prepare host args branch purpose state repos)
  unfolding prepare pure
  prepare-Ensures args branch purpose state [] h k = λ s holding. ((holding, h), tt)
  prepare-Ensures args branch purpose state (repo ∷ repos) h (other, k) =
      bind-Ensures Holding (λ _ s. Holding s) Preparing Holding
        (calls (host.exec_setup_worktree repo args.ticket branch purpose)) _
        (calls-Ensures Holds (host.exec_setup_worktree repo args.ticket branch purpose))
        (λ setup.
          bind-Ensures Holding Recording Preparing Holding _ _
            (set_repo_state-Ensures state repo.name _ h other)
            (λ state1 s (holding, h1).
              bind-Ensures Holding (λ _ s. Holding s) Preparing Holding
                (calls (host.run_plan state.instruction setup.repo_dir)) _
                (calls-Ensures Holds (host.run_plan state.instruction setup.repo_dir))
                (λ plan.
                  bind-Ensures Holding Preparing Preparing Holding _
                    (λ p. pure (
                      p.0,
                      (record {
                        name = repo.name;
                        repo_dir = setup.repo_dir;
                        plan = plan;
                        base_sha = setup.base_sha;
                      })
                          ∷ p.1,
                    ))
                    (prepare-Ensures args branch purpose state1 repos h1 k)
                    (λ prepared s (recording, others). (recording, (other, others))))
                s holding))

  todo_of-Unpublished :
      (state : TicketState) (repos : List RepoConfig)
      → was_published state name ≡ true
      → Unpublished (todo_of state repos)
  unfolding todo_of
  todo_of-Unpublished state [] p = tt
  todo_of-Unpublished state (r ∷ rs) p = elim (Bool-cases (was_published state r.name)) [
    | inl q ↦ rw q (todo_of-Unpublished state rs p)
    | inr q ↦ rw q (ground (arith, eq_iff r.name name), todo_of-Unpublished state rs p)
  ]

  run_todo-Ensures :
      (max : ℕ) (args : DriverArgs) (branch purpose : String) (state : TicketState)
      (repos : List RepoConfig)
      → Records name e instruction state
      → Unpublished repos
      → Ensures Holding
          (λ _ s. Holding s)
          Holding
          (run_todo host max args branch purpose state repos)
  unfolding run_todo pure
  run_todo-Ensures max args branch purpose state [] h k = λ s holding. holding
  run_todo-Ensures max args branch purpose state (repo ∷ repos) h k =
      bind-Ensures Holding Preparing (λ _ s. Holding s) Holding _ _
        (prepare-Ensures args branch purpose state (repo ∷ repos) h k)
        (λ prepared s ((holding, h'), others).
          bind-Ensures Holding (λ _ s. Holding s) (λ _ s. Holding s) Holding
            (calls (host.human_approval (length prepared.1)))
            (on_approval host max branch prepared.0 prepared.1)
            (calls-Ensures Holds (host.human_approval (length prepared.1)))
            (λ approved. on_approval-Ensures max branch prepared.0 prepared.1 approved h' others) s
            holding)

  load_or_start-Ensures :
      (args : DriverArgs) (branch purpose : String) (state : TicketState)
      → Records name e instruction state
      → is_published e.outcome ≡ true
      → Ensures Holding Recording Holding (load_or_start host args branch purpose (some state))
  unfolding load_or_start pure
  load_or_start-Ensures args branch purpose state h p =
      rw
        (resolve_resumed_instruction-shipped state args.instruction
          (any-lookup name state.repos e h.0 p))
        (λ s holding. (holding, h))

  found-Ensures :
      (args : DriverArgs) (branch purpose : String) (found : Option TicketState)
      → Holds found
      → is_published e.outcome ≡ true
      → Ensures Holding Recording Holding (load_or_start host args branch purpose found)
  found-Ensures args branch purpose none (st, same, h) p = cc
  found-Ensures args branch purpose (some state) (st, same, h) p =
      let told : st ≡ state = ground arith in
      load_or_start-Ensures args branch purpose state (subst (Records name e instruction) told h) p

  module _ (shipped : is_published e.outcome ≡ true) where
    run_loaded-Ensures :
        (max : ℕ) (args : DriverArgs) (branch purpose : String) (selected : List RepoConfig)
        (found : Option TicketState)
        → Holds found
        → Ensures Holding
            (λ _ s. Holding s)
            Holding
            (run_loaded host max args branch purpose selected found)
    unfolding run_loaded
    run_loaded-Ensures max args branch purpose selected found held =
        bind-Ensures Holding Recording (λ _ s. Holding s) Holding
          (load_or_start host args branch purpose found)
          (λ state. run_todo host max args branch purpose state (todo_of state selected))
          (found-Ensures args branch purpose found held shipped)
          (λ state s (holding, h).
            run_todo-Ensures max args branch purpose state (todo_of state selected) h
              (todo_of-Unpublished state selected (was_published-known state name e h.0 shipped)) s
              holding)

    drive-Ensures :
        (max : ℕ) (args : DriverArgs) (workspace : WorkspaceConfig) (selected : List RepoConfig)
        → Ensures Holding (λ _ s. Holding s) Holding (drive host max args workspace selected)
    unfolding drive load_state
    drive-Ensures max args workspace selected =
        let branch = branch_of args workspace in
        let purpose = purpose_of args workspace in
        bind-Ensures Holding (λ found s. Holding s × Holds found) (λ _ s. Holding s) Holding
          load_state (run_loaded host max args branch purpose selected)
          (λ s holding. (holding, holding))
          (λ found s (holding, held).
            run_loaded-Ensures max args branch purpose selected found held s holding)

    on_ticket-Ensures :
        (max : ℕ) (args : DriverArgs) (workspace : WorkspaceConfig) (repos : List RepoConfig)
        (fits : Bool)
        → Ensures Holding (λ _ s. Holding s) Holding (on_ticket host max args workspace repos fits)
    unfolding on_ticket pure
    on_ticket-Ensures max args workspace repos false = λ s holding. holding
    on_ticket-Ensures max args workspace repos true =
        bind-Ensures Holding (λ _ s. Holding s) (λ _ s. Holding s) Holding
          (reads (λ w. select_repos repos args.repos)) (drive host max args workspace)
          (reads-Ensures Holds (λ w. select_repos repos args.repos))
          (drive-Ensures max args workspace)

    run_driver-Ensures :
        (max : ℕ) (args : DriverArgs)
        → Ensures Holding (λ _ s. Holding s) Holding (run_driver host max args)
    unfolding run_driver pure
    run_driver-Ensures max args =
        if-Ensures Holding (λ _ s. Holding s) Holding (not (nonempty args.ticket)) (pure 2) _
          (λ s holding. holding)
          (if-Ensures Holding (λ _ s. Holding s) Holding (not (nonempty args.instruction)) (pure 2)
            _ (λ s holding. holding)
            (bind-Ensures Holding (λ _ s. Holding s) (λ _ s. Holding s) Holding
              (reads host.load_workspace) _ (reads-Ensures Holds host.load_workspace)
              (λ workspace.
                bind-Ensures Holding (λ _ s. Holding s) (λ _ s. Holding s) Holding
                  (reads host.load_repos) _ (reads-Ensures Holds host.load_repos)
                  (λ repos.
                    bind-Ensures Holding (λ _ s. Holding s) (λ _ s. Holding s) Holding
                      (reads (λ w. fits_pattern host workspace args.ticket))
                      (on_ticket host max args workspace repos)
                      (reads-Ensures Holds (λ w. fits_pattern host workspace args.ticket))
                      (on_ticket-Ensures max args workspace repos)))))

-- Once the ticket's saved state records a repo as published, a run of the driver leaves that repo's
-- entry and the ticket's instruction as they are, however it ends: with any exit code or with an
-- exception, whatever the repos and the instruction that it was given, and whatever the calls answer.
pub run_driver-keeps_published :
    {W : Type 0} (host : Host W) (max : ℕ) (args : DriverArgs) (s : Machine W) (st : TicketState)
    (name : String) (e : RepoState)
    → s.saved ≡ some st
    → lookup name st.repos ≡ some e
    → is_published e.outcome ≡ true
    → (st' : TicketState) × ((run_driver host max args s).1.saved ≡ some st')
      × Records name e st.instruction st'
run_driver-keeps_published host max args s st name e found known shipped =
    Ends-machine
      (Kept (λ o. (st' : TicketState) × (o ≡ some st') × Records name e st.instruction st'))
      (run_driver host max args s)
      (run_driver-Ensures host name e st.instruction shipped max args s (st, found, (known, refl)))
