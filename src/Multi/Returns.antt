-- ===== src/Multi/Returns.antt =====
-- harness/src/multi/driver.ts: where every call of the outside succeeds, no exception ends the stages
-- in front of the pipelines.
use muti_repo_workspace.Prelude.{
  ℕ, String, Bool, true, false, Option, none, some, List, [], ◌∷◌, ◌≡◌, refl, arith, sym, subst,
  ◌&&◌,
}
use muti_repo_workspace.Spine.Effects.{Attempt, returned}
use muti_repo_workspace.Orchestrator.{
  Run, finished, rejected, published_stub, plan_declined, publish_declined, OrchestratorResult,
}
use muti_repo_workspace.Orchestrator.Shipping.{Gives, Smooth, is_shipped}
use muti_repo_workspace.Multi.{
  RepoConfig, RepoState, TicketState, DriverArgs, WorkItem, is_published,
  resolve_resumed_instruction, result_state,
}
use muti_repo_workspace.Multi.Actions.{
  Host, Machine, Action, ◌>>=◌, pure, calls, written, save_state,
}
use muti_repo_workspace.Multi.Driver.{
  new_state, approved_pipeline, set_repo_state, load_or_start, prepare,
}
use muti_repo_workspace.Multi.Triples.{Ends, Ensures, bind-Ensures, if-Ensures}

-- A call that answers, whatever the outside is.
abbrev pub Answers : {W A : Type 0} → (W → Attempt A × W) → Type 0
Answers {W} {A} f = (w : W) → (a : A) × (w' : W) × (f w ≡ (returned a, w'))

-- Worktrees, plans, writes and the pipelines succeed, each plan is ready, and the human approves.
pub record Succeeds {W : Type 0} (host : Host W) : Type 0 where
  pub sets_up :
      (repo : RepoConfig) (ticket branch purpose : String)
      → Answers (host.exec_setup_worktree repo ticket branch purpose)
  pub plans :
      (instruction dir : String) (w : W)
      → Gives (λ plan. plan.ready_to_implement) (host.run_plan instruction dir w)
  pub writes : (state : TicketState) → Answers (host.write_state state)
  pub approves : (n : ℕ) (w : W) → Gives (λ b. b) (host.human_approval n w)
  pub runs : (it : WorkItem) → Smooth (approved_pipeline host it)

pub result_state-shipped :
    (run : Run) (branch dir : String)
    → is_shipped run ≡ true
    → is_published (result_state run branch dir).outcome ≡ true
unfolding result_state
result_state-shipped (finished (OrchestratorResult.published sha pr_url)) branch dir h = refl
result_state-shipped (finished published_stub) branch dir h = refl
result_state-shipped (finished plan_declined) branch dir h = cc
result_state-shipped (finished publish_declined) branch dir h = cc
result_state-shipped (finished OrchestratorResult.not_ready) branch dir h = cc
result_state-shipped (finished (OrchestratorResult.failed reason)) branch dir h = cc
result_state-shipped (rejected message) branch dir h = cc

unfoldable pub all_ready : List WorkItem → Bool
all_ready [] = true
all_ready (it ∷ work) = it.plan.ready_to_implement && all_ready work

module _ {W : Type 0} where
  abbrev pub Any : Machine W → Type 0
  Any s = Unit

  abbrev pub Never : Machine W → Type 0
  Never s = true ≡ false

  -- All the plans are ready.
  abbrev pub Prepared : TicketState × List WorkItem → Machine W → Type 0
  Prepared p s = all_ready p.1 ≡ true

module _ {W : Type 0} (host : Host W) (ok : Succeeds host) where
  -- No exception ends the chain.
  abbrev Returns : {A : Type 0} → Action W A → Type 0
  Returns m = Ensures Any (λ a s. Any s) Never m

  calls-Returns : {A : Type 0} (f : W → Attempt A × W) → Answers f → Returns (calls f)
  unfolding calls
  calls-Returns {A} f h s _ =
      let (a, w', e) = h s.world in
      subst (λ r. Ends (λ a s. Any s) Never (r.0, record s { world = r.1 })) (sym e) tt

  save_state-Returns : (state : TicketState) → Returns (save_state host state)
  unfolding save_state
  save_state-Returns state s _ =
      let (a, w', e) = ok.writes state s.world in
      subst (λ r. Ends (λ a s. Any s) Never (written host state r s)) (sym e) tt

  pub set_repo_state-Returns :
      (state : TicketState) (n : String) (entry : RepoState)
      → Returns (set_repo_state host state n entry)
  unfolding set_repo_state pure
  set_repo_state-Returns state n entry =
      bind-Ensures Any (λ a s. Any s) (λ a s. Any s) Never (save_state host _) _
        (save_state-Returns _) (λ a s _. tt)

  pub load_or_start-Returns :
      (args : DriverArgs) (branch purpose : String) (found : Option TicketState)
      → Returns (load_or_start host args branch purpose found)
  unfolding load_or_start pure
  load_or_start-Returns args branch purpose none =
      bind-Ensures Any (λ a s. Any s) (λ a s. Any s) Never
        (save_state host (new_state args branch purpose)) _
        (save_state-Returns (new_state args branch purpose)) (λ a s _. tt)
  load_or_start-Returns args branch purpose (some state) =
      let state' : TicketState = record state {
        instruction = (resolve_resumed_instruction state args.instruction).0;
      } in
      if-Ensures Any (λ a s. Any s) Never (resolve_resumed_instruction state args.instruction).1
        (save_state host state' >>= (λ _. pure state')) (pure state)
        (bind-Ensures Any (λ a s. Any s) (λ a s. Any s) Never (save_state host state')
          (λ _. pure state') (save_state-Returns state') (λ a s _. tt))
        (λ s _. tt)

  plan-Returns :
      (instruction dir : String)
      → Ensures Any
          (λ plan s. plan.ready_to_implement ≡ true)
          Never
          (calls (host.run_plan instruction dir))
  unfolding calls
  plan-Returns instruction dir s _ =
      let (plan, w', e, ready) = ok.plans instruction dir s.world in
      subst (λ r. Ends (λ p s. p.ready_to_implement ≡ true) Never (r.0, record s { world = r.1 }))
        (sym e) ready

  pub prepare-Prepared :
      (args : DriverArgs) (branch purpose : String) (state : TicketState) (repos : List RepoConfig)
      → Ensures Any Prepared Never (prepare host args branch purpose state repos)
  unfolding prepare pure all_ready
  prepare-Prepared args branch purpose state [] = λ s _. refl
  prepare-Prepared args branch purpose state (repo ∷ repos) =
      bind-Ensures Any (λ a s. Any s) Prepared Never
        (calls (host.exec_setup_worktree repo args.ticket branch purpose)) _
        (calls-Returns (host.exec_setup_worktree repo args.ticket branch purpose)
          (ok.sets_up repo args.ticket branch purpose))
        (λ setup.
          bind-Ensures Any (λ a s. Any s) Prepared Never _ _
            (set_repo_state-Returns state repo.name _)
            (λ state1.
              bind-Ensures Any (λ plan s. plan.ready_to_implement ≡ true) Prepared Never
                (calls (host.run_plan state.instruction setup.repo_dir)) _
                (plan-Returns state.instruction setup.repo_dir)
                (λ plan s ready.
                  bind-Ensures Any Prepared Prepared Never
                    (prepare host args branch purpose state1 repos) _
                    (prepare-Prepared args branch purpose state1 repos) (λ p s' all. ground arith) s
                    tt)))
