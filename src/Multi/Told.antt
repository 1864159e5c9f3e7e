-- ===== src/Multi/Told.antt =====
-- harness/src/multi/driver.ts: what an exit code says of the saved state, and that each stage behind
-- `loadState` says it.
use muti_repo_workspace.Prelude.{
  ℕ, String, Bool, true, false, ◌||◌, some, List, [], ◌∷◌, any, length, str_eq, ◌≡◌, refl, arith,
  eq_refl, ap, sym, ◌∙◌,
}
use muti_repo_workspace.Orchestrator.{
  OrchestratorResult, published_stub, plan_declined, publish_declined, Run, finished, rejected,
}
use muti_repo_workspace.Orchestrator.FixLoop.{run_orchestrator}
use muti_repo_workspace.Multi.{
  RepoConfig, RepoOutcome, published, declined, not_ready, failed, pending, RepoState, TicketState,
  DriverArgs, WorkItem, is_published, is_declined, result_state,
}
use muti_repo_workspace.Multi.Actions.{Host, Machine, pure, calls}
use muti_repo_workspace.Multi.Driver.{
  approved_pipeline, options, set_repo_state, prepare, decline_all, run_work, on_approval, run_todo,
  exit_code,
}
use muti_repo_workspace.Multi.Triples.{Ensures, bind-Ensures, test-Ensures}
use muti_repo_workspace.Multi.Recorded.{
  has_outcome, has_outcome-put, named, selects, puts, Declining, Readied, set_repo_state-Saves,
  calls-Saves, decline_all-Declining, prepare-Readied,
}

-- Neither published nor declined, after an attempt.
abbrev pub is_failure : RepoOutcome → Bool
is_failure failed = true
is_failure not_ready = true
is_failure _ = false

-- What an exit code says: 0 that every selected repo is published, or that one of them is recorded
-- as declined; 1 that one of them is recorded as failed or as not ready.
pub data Tells (selected : List RepoConfig) (st : TicketState) : ℕ → Type 0 where
  all_published :
      ((n : String)
        → any (λ (r : RepoConfig). str_eq r.name n) selected ≡ true
        → has_outcome is_published st n ≡ true)
      → Tells selected st 0
  one_declined :
      (n : String)
      → any (λ (r : RepoConfig). str_eq r.name n) selected ≡ true
      → has_outcome is_declined st n ≡ true
      → Tells selected st 0
  one_failed :
      (n : String)
      → any (λ (r : RepoConfig). str_eq r.name n) selected ≡ true
      → has_outcome is_failure st n ≡ true
      → Tells selected st 1

-- A result is recorded as published, as declined, or as a failure.
result-outcome :
    (run : Run) (branch worktree : String)
    → is_published (result_state run branch worktree).outcome
        || (is_declined (result_state run branch worktree).outcome
            || is_failure (result_state run branch worktree).outcome)
      ≡ true
unfolding result_state
result-outcome (finished (OrchestratorResult.published sha pr_url)) b w = refl
result-outcome (finished published_stub) b w = refl
result-outcome (finished plan_declined) b w = refl
result-outcome (finished publish_declined) b w = refl
result-outcome (finished OrchestratorResult.not_ready) b w = refl
result-outcome (finished (OrchestratorResult.failed reason)) b w = refl
result-outcome (rejected message) b w = refl

-- What the code tells where a repo was not published.
stopped-Tells :
    (selected : List RepoConfig) (st : TicketState) (n : String) (o : RepoOutcome)
    → any (λ (r : RepoConfig). str_eq r.name n) selected ≡ true
    → (is_declined o ≡ true → has_outcome is_declined st n ≡ true)
    → (is_failure o ≡ true → has_outcome is_failure st n ≡ true)
    → is_published o || (is_declined o || is_failure o) ≡ true
    → is_published o ≡ false
    → Tells selected st (exit_code o)
stopped-Tells selected st n published chosen d f one not_yet = cc
stopped-Tells selected st n declined chosen d f one not_yet = one_declined n chosen (d refl)
stopped-Tells selected st n not_ready chosen d f one not_yet = one_failed n chosen (f refl)
stopped-Tells selected st n failed chosen d f one not_yet = one_failed n chosen (f refl)
stopped-Tells selected st n pending chosen d f one not_yet = cc

module _ {W : Type 0} (host : Host W) (selected : List RepoConfig) where
  -- The saved state, and what the code tells of it.
  abbrev pub Told : ℕ → Machine W → Type 0
  Told code s = (st : TicketState) × (s.saved ≡ some st) × Tells selected st code

  -- Every selected repo is published or in the work, and the work is selected.
  abbrev pub Covered : TicketState → List WorkItem → Type 0
  Covered state work =
      ((n : String)
        → selects n selected ≡ true
        → has_outcome is_published state n || named n work ≡ true)
      × ((n : String) → named n work ≡ true → selects n selected ≡ true)

  module _ (state : TicketState) (it : WorkItem) (work : List WorkItem) (entry : RepoState)
      (st : TicketState) (covered : Covered state (it ∷ work))
      (same : st ≡ puts host state it.name entry) where
    recorded : (p : RepoOutcome → Bool) → p entry.outcome ≡ true → has_outcome p st it.name ≡ true
    recorded p h =
        let now =
          ap (λ x. has_outcome p x it.name) same ∙ has_outcome-put p state it.name it.name entry in
        ground (arith, eq_refl it.name)

    chosen : selects it.name selected ≡ true
    chosen = covered.1 it.name (ground (arith, eq_refl it.name))

    pub goes_on : is_published entry.outcome ≡ true → Covered st work
    goes_on shipped = ((λ n h. carried n (covered.0 n h)), (λ n h. covered.1 n (ground arith)))
      where
        carried :
            (n : String)
            → has_outcome is_published state n || (str_eq it.name n || named n work) ≡ true
            → has_outcome is_published st n || named n work ≡ true
        carried n h =
            let now =
              ap (λ x. has_outcome is_published x n) same
              ∙ has_outcome-put is_published state it.name n entry in
            ground arith

    stops :
        is_published entry.outcome || (is_declined entry.outcome || is_failure entry.outcome) ≡ true
        → is_published entry.outcome ≡ false
        → Tells selected st (exit_code entry.outcome)
    stops one not_yet =
        stopped-Tells selected st it.name entry.outcome chosen (recorded is_declined)
          (recorded is_failure) one not_yet

  run_work-Told :
      (max : ℕ) (branch : String) (state : TicketState) (work : List WorkItem)
      → Covered state work
      → Ensures (λ s. s.saved ≡ some state) Told (λ s. Unit) (run_work host max branch state work)
  unfolding run_work pure
  run_work-Told max branch state [] covered =
      λ s saved. (state, saved, all_published (λ n h. ground (arith, covered.0 n h)))
  run_work-Told max branch state (it ∷ work) covered = λ s saved.
      let run : Run =
        (run_orchestrator (approved_pipeline host it) max (options state.instruction it)
          s.world).0 in
      let entry = result_state run branch it.repo_dir in
      bind-Ensures (λ s. Unit) (λ st s. (s.saved ≡ some st) × (st ≡ puts host state it.name entry))
        Told (λ s. Unit) (set_repo_state host state it.name entry) _
        (set_repo_state-Saves host state it.name entry)
        (λ st s (saved, same).
          test-Ensures (λ s. s.saved ≡ some st) Told (λ s. Unit) (is_published entry.outcome)
            (run_work host max branch st work) (pure (exit_code entry.outcome))
            (λ shipped.
              run_work-Told max branch st work
                (goes_on state it work entry st covered same shipped))
            (λ not_yet s saved. (
              st,
              saved,
              stops state it work entry st covered same (result-outcome run branch it.repo_dir)
                  not_yet,
            ))
            s saved)
        _ tt

  on_approval-Told :
      (max : ℕ) (branch : String) (state : TicketState) (work : List WorkItem) (n : String)
      (approved : Bool)
      → Covered state work
      → named n work ≡ true
      → Ensures
          (λ s. s.saved ≡ some state)
          Told
          (λ s. Unit)
          (on_approval host max branch state work approved)
  unfolding on_approval pure
  on_approval-Told max branch state work n true covered some_work =
      run_work-Told max branch state work covered
  on_approval-Told max branch state work n false covered some_work =
      bind-Ensures (λ s. s.saved ≡ some state) (Declining host state work) Told (λ s. Unit)
        (decline_all host branch state work) (λ _. pure 0)
        (decline_all-Declining host branch state work)
        (λ st s (saved, declines).
          (st, saved, one_declined n (covered.1 n some_work) (declines n (ground arith))))

  pub run_todo-Told :
      (max : ℕ) (args : DriverArgs) (branch purpose : String) (state : TicketState)
      (todo : List RepoConfig)
      → ((n : String)
          → selects n selected ≡ true
          → has_outcome is_published state n || selects n todo ≡ true)
      → ((n : String) → selects n todo ≡ true → selects n selected ≡ true)
      → Ensures
          (λ s. s.saved ≡ some state)
          Told
          (λ s. Unit)
          (run_todo host max args branch purpose state todo)
  unfolding run_todo pure
  run_todo-Told max args branch purpose state [] cover sub =
      λ s saved. (state, saved, all_published (λ n h. let c = cover n h in ground arith))
  run_todo-Told max args branch purpose state (repo ∷ todo) cover sub =
      bind-Ensures (λ s. s.saved ≡ some state) (Readied host state (repo ∷ todo)) Told (λ s. Unit)
        (prepare host args branch purpose state (repo ∷ todo)) _
        (prepare-Readied host args branch purpose state (repo ∷ todo))
        (λ p s (saved, covers, names).
          bind-Ensures (λ s. s.saved ≡ some p.0) (λ _ s. s.saved ≡ some p.0) Told (λ s. Unit)
            (calls (host.human_approval (length p.1))) (on_approval host max branch p.0 p.1)
            (calls-Saves host p.0 (host.human_approval (length p.1)))
            (λ approved.
              on_approval-Told max branch p.0 p.1 repo.name approved
                ((λ n h. covers n (cover n h)), (λ n h. sub n (sym (names n) ∙ h)))
                (names repo.name ∙ ground (arith, eq_refl repo.name)))
            s saved)
