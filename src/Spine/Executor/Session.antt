-- ===== src/Spine/Executor/Session.antt =====
-- Sessions of harness/src/spine/executor.ts: the dispatches of one executor, in order.
use muti_repo_workspace.Prelude.{
  ◌≤◌, ◌≡◌, refl, String, Option, none, some, false, true, ap, ◌∙◌, ◌<◌, List, [], ◌∷◌, All, length,
  arith, Dict,
}
use muti_repo_workspace.Spine.Ledger.{
  SpineLedger, SpineEnv, LedgerRepoInit, LedgerBudgets, new_ledger, consume_action,
}
use muti_repo_workspace.Spine.Actions.{
  SpineAction, run_worker, run_tests, review_diff, plan_repo, ask_human, show_human,
  request_publish, done, abort, by_done, by_abort, session_ended, already_ended, EndedInfo,
}
use muti_repo_workspace.Spine.Effects.{Effects}
use muti_repo_workspace.Spine.Executor.State.{
  ExecutorDeps, Executor, Outcome, fails, create_executor,
}
use muti_repo_workspace.Spine.Executor.Dispatch.{dispatch, run_action, act, settle}
use muti_repo_workspace.Spine.Executor.Serial.{dispatch_over, dispatch_free}
use muti_repo_workspace.Spine.Executor.Budget.{IsBudgeted, dispatch-Spends}

-- How an action ends a session.
abbrev pub ending : SpineAction → Option EndedInfo
ending (done summary) = some (record { kind = by_done; message = summary })
ending (abort why) = some (record { kind = by_abort; message = why })
ending _ = none

module _ {W : Type 0} (fx : Effects W) (deps : ExecutorDeps) where
  -- The outcomes of the dispatches, and the executor after them.
  unfoldable pub run_session : List SpineAction → Executor W → List Outcome × Executor W
  run_session [] s = ([], s)
  run_session (a ∷ rest) s =
      let (out, s') = dispatch fx deps a s in
      let (outs, s'') = run_session rest s' in (out ∷ outs, s'')

  run_session-Spends :
      (acts : List SpineAction) (s : Executor W)
      → IsBudgeted s.ledger
      → (l : SpineLedger) → l.max_actions ≡ s.ledger.max_actions
      → l.max_worker_runs ≡ s.ledger.max_worker_runs
      → IsBudgeted (run_session acts s).1.ledger
        × ((run_session acts s).1.ledger.max_actions ≡ l.max_actions)
        × ((run_session acts s).1.ledger.max_worker_runs ≡ l.max_worker_runs)
  unfolding run_session
  run_session-Spends [] s b l p q = ground arith
  run_session-Spends (a ∷ rest) s b l p q =
      let spent = dispatch-Spends fx deps a s in
      run_session-Spends rest (dispatch fx deps a s).1 (spent.invariant b) l (omega arith)
        (omega arith)

  run_session-over :
      (acts : List SpineAction) (s : Executor W) (info : EndedInfo)
      → s.ended ≡ some info
      → ((run_session acts s).1 ≡ s)
        × All (λ out. out ≡ fails session_ended (already_ended info)) (run_session acts s).0
        × (length (run_session acts s).0 ≡ length acts)
  unfolding run_session
  run_session-over [] s info over = (refl, tt, refl)
  run_session-over (a ∷ rest) s info over =
      let (same, refusals, counted) = run_session-over rest s info over in
      rw (dispatch_over fx deps a s info over) (same, (refl, refusals), omega arith)

  settle-ended : (r : Outcome × Executor W) → (settle fx deps r).1.ended ≡ r.1.ended
  unfolding settle
  settle-ended (out, s) = ground arith

  run_action-ended :
      (a : SpineAction) (s : Executor W) (info : EndedInfo)
      → ending a ≡ some info
      → s.ledger.actions_used < s.ledger.max_actions
      → (run_action fx deps a s).1.ended ≡ some info
  unfolding run_action consume_action act
  run_action-ended (done summary) s info ends left = ground arith
  run_action-ended (abort why) s info ends left = ground arith
  run_action-ended (run_worker repo instruction) s info ends left = cc
  run_action-ended (run_tests repo) s info ends left = cc
  run_action-ended (review_diff repo) s info ends left = cc
  run_action-ended (plan_repo repo) s info ends left = cc
  run_action-ended (ask_human question) s info ends left = cc
  run_action-ended (show_human content) s info ends left = cc
  run_action-ended (request_publish repo) s info ends left = cc

  dispatch-ended :
      (a : SpineAction) (s : Executor W) (info : EndedInfo)
      → ending a ≡ some info
      → s.ended ≡ none
      → s.is_busy ≡ false
      → s.ledger.actions_used < s.ledger.max_actions
      → (dispatch fx deps a s).1.ended ≡ some info
  dispatch-ended a s info ends fresh idle left =
      let s' : Executor W = record s { is_busy = true } in
      ap (λ r. r.1.ended) (dispatch_free fx deps a s fresh idle)
      ∙ settle-ended (run_action fx deps a s')
      ∙ run_action-ended a s' info ends left

  -- Once `done` or `abort` has been dispatched to an open and idle executor that has an action left,
  -- every further dispatch of the session is refused with `session_ended` and the message of that
  -- `done` or `abort`, and nothing changes: not the ledger, not its budgets, and nothing outside.
  pub run_session-ended :
      (a : SpineAction) (acts : List SpineAction) (s : Executor W) (info : EndedInfo)
      → ending a ≡ some info
      → s.ended ≡ none
      → s.is_busy ≡ false
      → s.ledger.actions_used < s.ledger.max_actions
      → let s' = (dispatch fx deps a s).1 in
        ((run_session (a ∷ acts) s).1 ≡ s')
        × All (λ out. out ≡ fails session_ended (already_ended info)) (run_session acts s').0
        × (length (run_session acts s').0 ≡ length acts)
  unfolding run_session
  run_session-ended a acts s info ends fresh idle left =
      run_session-over acts (dispatch fx deps a s).1 info
        (dispatch-ended a s info ends fresh idle left)

-- A session on a new ledger never takes more actions or worker runs than the budgets that the
-- ledger was made with, whatever is dispatched and whatever the outside answers.
pub run_session-IsBudgeted :
    {W : Type 0} (fx : Effects W) (deps : ExecutorDeps) (env : SpineEnv) (ticket : String)
    (repos : Dict LedgerRepoInit) (budgets : LedgerBudgets) (dir : Option String) (w : W)
    (acts : List SpineAction)
    → let l = new_ledger env ticket repos budgets dir in
      let l' = (run_session fx deps acts (create_executor l w)).1.ledger in
      (l'.actions_used ≤ l.max_actions)
      × (l'.worker_runs_used ≤ l.max_worker_runs)
      × (l'.worker_runs_used ≤ l'.actions_used)
unfolding new_ledger create_executor
run_session-IsBudgeted fx deps env ticket repos budgets dir w acts =
    let l = new_ledger env ticket repos budgets dir in
    let (b, p, q) =
      run_session-Spends fx deps acts (create_executor l w) (omega arith) l refl refl in
    (omega arith, omega arith, b.runs_are_actions)
