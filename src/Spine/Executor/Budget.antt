-- ===== src/Spine/Executor/Budget.antt =====
-- The budgets of a session of harness/src/spine/executor.ts.
use muti_repo_workspace.Prelude.{String, ◌+◌, ◌≤◌, ◌≡◌, arith, Option-cases, true, inl, inr}
use muti_repo_workspace.Spine.Ledger.{
  SpineLedger, RepoLedgerEntry, get_repo, consume_action, consume_worker_run, record_worker_run,
  record_tests, record_review, record_plan, record_published,
}
use muti_repo_workspace.Spine.Actions.{
  SpineAction, run_worker, run_tests, review_diff, plan_repo, ask_human, show_human,
  request_publish, done, abort,
}
use muti_repo_workspace.Spine.Effects.{Effects, confirm_publish, acknowledge_tests}
use muti_repo_workspace.Spine.Executor.State.{ExecutorDeps, Executor, Outcome, require_repo}
use muti_repo_workspace.Spine.Executor.Steps.{implement, work, test, review, make_plan, ask}
use muti_repo_workspace.Spine.Executor.Publish.{
  send, confirm, approve_in_chat, publish_gated, ask_publish, shown_review,
}
use muti_repo_workspace.Spine.Executor.Dispatch.{act, run_action, settle, dispatch}
use muti_repo_workspace.Spine.Executor.Serial.{dispatch-cases}

-- The counters and the limits of two ledgers agree.
pub record SameBudget (l l' : SpineLedger) : Type 0 where
  pub actions : l'.actions_used ≡ l.actions_used
  pub runs : l'.worker_runs_used ≡ l.worker_runs_used
  pub max_actions : l'.max_actions ≡ l.max_actions
  pub max_runs : l'.max_worker_runs ≡ l.max_worker_runs

-- One ledger comes from the other by at most one worker run within the limit.
record MaySpendRun (l l' : SpineLedger) : Type 0 where
  actions : l'.actions_used ≡ l.actions_used
  max_actions : l'.max_actions ≡ l.max_actions
  max_runs : l'.max_worker_runs ≡ l.max_worker_runs
  kept : l.worker_runs_used ≤ l'.worker_runs_used
  once : l'.worker_runs_used ≤ l.worker_runs_used + 1
  within : l.worker_runs_used ≤ l.max_worker_runs → l'.worker_runs_used ≤ l.max_worker_runs

-- The budget invariant: neither budget is overdrawn, and each worker run was an action.
pub record IsBudgeted (l : SpineLedger) : Type 0 where
  pub actions : l.actions_used ≤ l.max_actions
  pub runs : l.worker_runs_used ≤ l.max_worker_runs
  pub runs_are_actions : l.worker_runs_used ≤ l.actions_used

-- What a dispatch may do to the budgets.
pub record Spends (l l' : SpineLedger) : Type 0 where
  pub max_actions : l'.max_actions ≡ l.max_actions
  pub max_runs : l'.max_worker_runs ≡ l.max_worker_runs
  pub one_action : l'.actions_used ≤ l.actions_used + 1
  pub no_refund : l.actions_used ≤ l'.actions_used
  pub no_run_refund : l.worker_runs_used ≤ l'.worker_runs_used
  pub one_run : l'.worker_runs_used ≤ l.worker_runs_used + 1
  pub invariant : IsBudgeted l → IsBudgeted l'

SameBudget-MaySpendRun : {l l' : SpineLedger} → SameBudget l l' → MaySpendRun l l'
SameBudget-MaySpendRun b = omega arith

module _ {W : Type 0} (fx : Effects W) (deps : ExecutorDeps) where
  pub implement-SameBudget :
      (repo i : String) (e : RepoLedgerEntry) (s : Executor W)
      → SameBudget s.ledger (implement fx deps repo i e s).1.ledger
  unfolding implement record_worker_run
  implement-SameBudget repo i e s = ground arith

  pub test-SameBudget :
      (repo : String) (e : RepoLedgerEntry) (s : Executor W)
      → SameBudget s.ledger (test fx deps repo e s).1.ledger
  unfolding test record_tests
  test-SameBudget repo e s = ground arith

  pub review-SameBudget :
      (repo : String) (e : RepoLedgerEntry) (s : Executor W)
      → SameBudget s.ledger (review fx deps repo e s).1.ledger
  unfolding review record_review
  review-SameBudget repo e s = ground arith

  pub make_plan-SameBudget :
      (repo : String) (e : RepoLedgerEntry) (s : Executor W)
      → SameBudget s.ledger (make_plan fx deps repo e s).1.ledger
  unfolding make_plan record_plan
  make_plan-SameBudget repo e s = ground arith

  send-SameBudget :
      (repo d : String) (e : RepoLedgerEntry) (s : Executor W)
      → SameBudget s.ledger (send fx deps repo d e s).1.ledger
  unfolding send record_published
  send-SameBudget repo d e s = ground arith

  confirm-SameBudget :
      (repo d : String) (e : RepoLedgerEntry) (s : Executor W)
      → SameBudget s.ledger (confirm fx deps repo d e s).1.ledger
  unfolding confirm
  confirm-SameBudget repo d e s =
      let (result, w) = fx.ask_human confirm_publish s.world in
      ground (arith, send-SameBudget repo d e (record s { world = w }))

  approve_in_chat-SameBudget :
      (repo d : String) (e : RepoLedgerEntry) (s : Executor W)
      → SameBudget s.ledger (approve_in_chat fx deps repo d e s).1.ledger
  unfolding approve_in_chat
  approve_in_chat-SameBudget repo d e s =
      let w = fx.show_for_approval e.plan (shown_review fx deps e.review_approved) d s.world in
      ground (
        arith,
        confirm-SameBudget repo d e (record s { world = w }),
        confirm-SameBudget repo d e (record s { world = (fx.ask_human acknowledge_tests w).1 }),
      )

  pub ask_publish-SameBudget :
      (repo : String) (e : RepoLedgerEntry) (s : Executor W)
      → SameBudget s.ledger (ask_publish fx deps repo e s).1.ledger
  unfolding ask_publish publish_gated
  ask_publish-SameBudget repo e s =
      let d = (fx.commit_range_diff e.repo_dir e.base_sha s.world).diff in
      ground (arith, approve_in_chat-SameBudget repo d e s, send-SameBudget repo d e s)

  work-MaySpendRun :
      (repo i : String) (e : RepoLedgerEntry) (s : Executor W)
      → MaySpendRun s.ledger (work fx deps repo i e s).1.ledger
  unfolding work consume_worker_run
  work-MaySpendRun repo i e s = ground (
    arith,
    implement-SameBudget repo i e (record s {
      ledger = record s.ledger { worker_runs_used = s.ledger.worker_runs_used + 1 };
    }),
  )

  ask-MaySpendRun : (q : String) (s : Executor W) → MaySpendRun s.ledger (ask fx deps q s).1.ledger
  unfolding ask
  ask-MaySpendRun q s = ground arith

  require_repo-MaySpendRun :
      (repo : String) (k : RepoLedgerEntry → Executor W → Outcome × Executor W) (s : Executor W)
      → ((e : RepoLedgerEntry) → MaySpendRun s.ledger (k e s).1.ledger)
      → MaySpendRun s.ledger (require_repo repo k s).1.ledger
  require_repo-MaySpendRun repo k s keeps = elim (Option-cases (get_repo repo s.ledger)) [
    | inl missing ↦ rw (missing, require_repo) (SameBudget-MaySpendRun (omega arith))
    | inr (e, found) ↦ rw (found, require_repo) (keeps e)
  ]

  act-MaySpendRun :
      (a : SpineAction) (s : Executor W) → MaySpendRun s.ledger (act fx deps a s).1.ledger
  unfolding act
  act-MaySpendRun (run_worker repo i) s =
      require_repo-MaySpendRun repo (work fx deps repo i) s (λ e. work-MaySpendRun repo i e s)
  act-MaySpendRun (run_tests repo) s =
      require_repo-MaySpendRun repo (test fx deps repo) s
        (λ e. SameBudget-MaySpendRun (test-SameBudget repo e s))
  act-MaySpendRun (review_diff repo) s =
      require_repo-MaySpendRun repo (review fx deps repo) s
        (λ e. SameBudget-MaySpendRun (review-SameBudget repo e s))
  act-MaySpendRun (plan_repo repo) s =
      require_repo-MaySpendRun repo (make_plan fx deps repo) s
        (λ e. SameBudget-MaySpendRun (make_plan-SameBudget repo e s))
  act-MaySpendRun (ask_human q) s = ask-MaySpendRun q s
  act-MaySpendRun (show_human c) s = omega arith
  act-MaySpendRun (request_publish repo) s =
      require_repo-MaySpendRun repo (ask_publish fx deps repo) s
        (λ e. SameBudget-MaySpendRun (ask_publish-SameBudget repo e s))
  act-MaySpendRun (done m) s = omega arith
  act-MaySpendRun (abort m) s = omega arith

  run_action-Spends :
      (a : SpineAction) (s : Executor W) → Spends s.ledger (run_action fx deps a s).1.ledger
  unfolding run_action consume_action
  run_action-Spends a s = ground (
    arith,
    act-MaySpendRun a
        (record s { ledger = record s.ledger { actions_used = s.ledger.actions_used + 1 } }),
  )

  pub settle-ledger : (r : Outcome × Executor W) → (settle fx deps r).1.ledger ≡ r.1.ledger
  unfolding settle
  settle-ledger (out, s) = ground arith

  -- A dispatch leaves the limits as they are, takes at most one action and at most one worker run, gives
  -- none back, and keeps the invariant: neither budget overdrawn, and no more worker runs than actions.
  pub dispatch-Spends :
      (a : SpineAction) (s : Executor W) → Spends s.ledger (dispatch fx deps a s).1.ledger
  dispatch-Spends a s = elim (dispatch-cases fx deps a s) [
    | inl (refusal, _, same) ↦ rw same (omega arith)
    | inr (_, _, runs) ↦
        rw (runs, settle-ledger (run_action fx deps a (record s { is_busy = true })))
          (run_action-Spends a (record s { is_busy = true }))
  ]
