-- ===== src/Multi/Progress.antt =====
-- harness/src/multi/driver.ts: a run in which every call succeeds.
use muti_repo_workspace.Prelude.{
  ℕ, String, Bool, true, false, some, List, [], ◌∷◌, length, ◌≡◌, refl, arith, ap, sym, subst, ◌||◌,
  ◌∙◌,
}
use muti_repo_workspace.Spine.Effects.{Attempt, returned, threw}
use muti_repo_workspace.Orchestrator.{Run}
use muti_repo_workspace.Orchestrator.Shipping.{run_orchestrator-shipped}
use muti_repo_workspace.Orchestrator.FixLoop.{run_orchestrator}
use muti_repo_workspace.Multi.{
  RepoConfig, WorkspaceConfig, RepoState, TicketState, DriverArgs, WorkItem, is_published,
  result_state,
}
use muti_repo_workspace.Multi.Actions.{Host, Machine, pure, calls, load_state}
use muti_repo_workspace.Multi.Driver.{
  approved_pipeline, options, set_repo_state, load_or_start, prepare, run_repo, run_work,
  on_approval, run_todo, todo_of, run_loaded, drive, branch_of, purpose_of, exit_code,
}
use muti_repo_workspace.Multi.Told.{Covered, goes_on}
use muti_repo_workspace.Multi.Exit.{todo_of-covers, todo_of-selects, load_or_start-Saves}
use muti_repo_workspace.Multi.Recorded.{
  has_outcome, selects, puts, Saves, Readied, set_repo_state-Saves, calls-Saves, prepare-Readied,
}
use muti_repo_workspace.Multi.Triples.{
  both-Ensures, Ends-map, Ends, Ensures, bind-Ensures, test-Ensures,
}
use muti_repo_workspace.Multi.Returns.{
  Succeeds, result_state-shipped, all_ready, Any, Never, set_repo_state-Returns,
  load_or_start-Returns, Prepared, prepare-Prepared,
}

module _ {W : Type 0} (host : Host W) (ok : Succeeds host) (max : ℕ) where
  set_repo_state-Done :
      (state : TicketState) (n : String) (entry : RepoState)
      → Ensures Any
          (λ st s. (s.saved ≡ some st) × (st ≡ puts host state n entry))
          Never
          (set_repo_state host state n entry)
  set_repo_state-Done state n entry s _ =
      Ends-map (λ st s. Any s × ((s.saved ≡ some st) × (st ≡ puts host state n entry)))
        (λ st s. (s.saved ≡ some st) × (st ≡ puts host state n entry)) Never
        (λ st s (_, saved). saved) (set_repo_state host state n entry s)
        (both-Ensures Any Any (λ a s. Any s)
          (λ st s. (s.saved ≡ some st) × (st ≡ puts host state n entry)) Never (λ s. Unit)
          (set_repo_state host state n entry) (set_repo_state-Returns host ok state n entry)
          (set_repo_state-Saves host state n entry) s tt tt)

  approval-Returns :
      (n : ℕ) → Ensures Any (λ approved s. approved ≡ true) Never (calls (host.human_approval n))
  unfolding calls
  approval-Returns n s _ =
      let (approved, w', e, agreed) = ok.approves n s.world in
      subst (λ r. Ends (λ a s. a ≡ true) Never (r.0, record s { world = r.1 })) (sym e) agreed

  module _ (selected : List RepoConfig) where
    -- Exit code 0, and every selected repo recorded as published in the saved state.
    abbrev pub Shipped : ℕ → Machine W → Type 0
    Shipped code s =
        (code ≡ 0)
        × ((st : TicketState) × (s.saved ≡ some st)
            × ((n : String) → selects n selected ≡ true → has_outcome is_published st n ≡ true))

    run_work-Shipped :
        (branch : String) (state : TicketState) (work : List WorkItem)
        → all_ready work ≡ true
        → Covered host selected state work
        → Ensures (Saves host state) Shipped Never (run_work host max branch state work)
    unfolding run_work run_repo calls pure all_ready
    run_work-Shipped branch state [] ready covered =
        λ s saved. (refl, (state, saved, λ n h. ground (arith, covered.0 n h)))
    run_work-Shipped branch state (it ∷ work) ready covered = λ s0 _.
        let run : Run =
          (run_orchestrator (approved_pipeline host it) max (options state.instruction it)
            s0.world).0 in
        let shipped = result_state-shipped run branch it.repo_dir (
          run_orchestrator-shipped (approved_pipeline host it) (ok.runs it) max state.instruction
            it.base_sha it.plan s0.world (ground arith)) in
        let entry = result_state run branch it.repo_dir in
        bind-Ensures Any (λ st s. (s.saved ≡ some st) × (st ≡ puts host state it.name entry))
          Shipped Never (set_repo_state host state it.name entry) _
          (set_repo_state-Done state it.name entry)
          (λ st s (saved, same).
            test-Ensures (Saves host st) Shipped Never (is_published entry.outcome)
              (run_work host max branch st work) (pure (exit_code entry.outcome))
              (λ goes.
                run_work-Shipped branch st work (ground arith)
                  (goes_on host selected state it work entry st covered same goes))
              (λ stays s _. ground arith) s saved)
          _ tt

    on_approval-Shipped :
        (branch : String) (state : TicketState) (work : List WorkItem) (approved : Bool)
        → all_ready work ≡ true
        → Covered host selected state work
        → approved ≡ true
        → Ensures (Saves host state) Shipped Never (on_approval host max branch state work approved)
    unfolding on_approval
    on_approval-Shipped branch state work true ready covered agreed =
        run_work-Shipped branch state work ready covered
    on_approval-Shipped branch state work false ready covered agreed = λ s saved. cc

    run_todo-Shipped :
        (args : DriverArgs) (branch purpose : String) (state : TicketState) (todo : List RepoConfig)
        → ((n : String)
            → selects n selected ≡ true
            → has_outcome is_published state n || selects n todo ≡ true)
        → ((n : String) → selects n todo ≡ true → selects n selected ≡ true)
        → Ensures
            (Saves host state)
            Shipped
            Never
            (run_todo host max args branch purpose state todo)
    unfolding run_todo pure
    run_todo-Shipped args branch purpose state [] cover sub =
        λ s saved. (refl, (state, saved, λ n h. let c = cover n h in ground arith))
    run_todo-Shipped args branch purpose state (repo ∷ todo) cover sub =
        bind-Ensures (Saves host state) (λ p s. Prepared p s × Readied host state (repo ∷ todo) p s)
          Shipped Never (prepare host args branch purpose state (repo ∷ todo)) _
          (λ s saved.
            both-Ensures Any (Saves host state) Prepared (Readied host state (repo ∷ todo)) Never
              (λ s. Unit) (prepare host args branch purpose state (repo ∷ todo))
              (prepare-Prepared host ok args branch purpose state (repo ∷ todo))
              (prepare-Readied host args branch purpose state (repo ∷ todo)) s tt saved)
          (λ p s (ready, (saved, covers, names)).
            bind-Ensures (Saves host p.0) (λ approved s. (approved ≡ true) × Saves host p.0 s)
              Shipped Never (calls (host.human_approval (length p.1)))
              (on_approval host max branch p.0 p.1)
              (λ s saved.
                both-Ensures Any (Saves host p.0) (λ approved s. approved ≡ true)
                  (λ _ s. Saves host p.0 s) Never (λ s. Unit)
                  (calls (host.human_approval (length p.1))) (approval-Returns (length p.1))
                  (calls-Saves host p.0 (host.human_approval (length p.1))) s tt saved)
              (λ approved s (agreed, saved).
                on_approval-Shipped branch p.0 p.1 approved ready
                  ((λ n h. covers n (cover n h)), (λ n h. sub n (sym (names n) ∙ h))) agreed s
                  saved)
              s saved)

    drive-Shipped :
        (args : DriverArgs) (workspace : WorkspaceConfig)
        → Ensures Any Shipped Never (drive host max args workspace selected)
    unfolding drive run_loaded load_state
    drive-Shipped args workspace =
        bind-Ensures Any (λ found s. s.saved ≡ found) Shipped Never load_state _ (λ s _. refl)
          (λ found.
            let started =
              load_or_start host args (branch_of args workspace) (purpose_of args workspace)
                found in
            bind-Ensures (λ s. s.saved ≡ found) (λ st s. Any s × Saves host st s) Shipped Never
              started _
              (λ s same.
                both-Ensures Any (λ s. s.saved ≡ found) (λ st s. Any s) (Saves host) Never
                  (λ s. Unit) started
                  (load_or_start-Returns host ok args (branch_of args workspace)
                    (purpose_of args workspace) found)
                  (load_or_start-Saves host args (branch_of args workspace)
                    (purpose_of args workspace) found)
                  s tt same)
              (λ state s (_, saved).
                run_todo-Shipped args (branch_of args workspace) (purpose_of args workspace) state
                  (todo_of state selected) (todo_of-covers state selected)
                  (todo_of-selects state selected) s saved))

  answer_of :
      (r : Attempt ℕ × Machine W) (Q : Machine W → Type 0)
      → Ends (λ code s. (code ≡ 0) × Q s) Never r
      → (r.0 ≡ returned 0) × Q r.1
  answer_of (returned code, s) Q (zero_code, q) = (ap returned zero_code, q)
  answer_of (threw message, s) Q h = cc

  -- When worktrees and writes of the state succeed, each plan is ready, the human approves, and in
  -- each repo's pipeline the calls answer, the diffs are complete, the reviewer approves, the tests
  -- pass and the gates open, a run on the selected repos ends without an exception, with exit code
  -- 0, and with a saved state that records every selected repo as published, whatever was saved
  -- before.
  pub drive-ends :
      (args : DriverArgs) (workspace : WorkspaceConfig) (selected : List RepoConfig) (s : Machine W)
      → let (out, s') = drive host max args workspace selected s in
        (out ≡ returned 0)
        × ((st : TicketState) × (s'.saved ≡ some st)
            × ((n : String) → selects n selected ≡ true → has_outcome is_published st n ≡ true))
  drive-ends args workspace selected s =
      answer_of (drive host max args workspace selected s)
        (λ s'.
          (st : TicketState) × (s'.saved ≡ some st)
          × ((n : String) → selects n selected ≡ true → has_outcome is_published st n ≡ true))
        (drive-Shipped selected args workspace s tt)
