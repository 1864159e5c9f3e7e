-- ===== src/Tests/Sessions.antt =====
-- Sessions of harness/src/spine/executor.ts: the outside is the HEAD sha of one worktree, the worker commits
-- a new one, every run passes and the human says yes.
use muti_repo_workspace.Contracts.{Review}
use muti_repo_workspace.Prelude.{
  arith, ◌≤◌, String, true, false, none, some, List, [], ◌∷◌, ◌≡◌, refl, All, length, lookup,
  update, put, ◌⊎◌,
}
use muti_repo_workspace.Spine.Actions.{
  SpineAction, done, run_worker, run_tests, review_diff, plan_repo, request_publish, session_ended,
  already_ended, EndedInfo, by_done,
}
use muti_repo_workspace.Spine.Effects.{Effects, returned, pushed}
use muti_repo_workspace.Spine.Ledger.{
  new_ledger, get_repo, can_publish, ok, consume_action, record_plan, consume_worker_run,
  record_worker_run, record_tests, record_review,
}
use muti_repo_workspace.Spine.Ledger.Store.{persist}
use muti_repo_workspace.Spine.Ledger.Trace.{AtHead}
use muti_repo_workspace.Spine.Executor.State.{
  ExecutorDeps, Executor, Outcome, in_chat, create_executor, fails,
}
use muti_repo_workspace.Spine.Executor.Dispatch.{dispatch, run_action, settle}
use muti_repo_workspace.Spine.Executor.Serial.{IsRefusal, dispatch-cases}
use muti_repo_workspace.Spine.Executor.Budget.{Spends, dispatch-Spends}
use muti_repo_workspace.Spine.Executor.Session.{run_session, run_session-ended}
use muti_repo_workspace.Spine.Executor.Calls.{Call, Calls, worker_calls}
use muti_repo_workspace.Spine.Executor.Rights.{Acts}
use muti_repo_workspace.Spine.Executor.Safety.{dispatch-Acts, run_session-worker_calls}
use muti_repo_workspace.Spine.Executor.Provenance.{
  SinceDispatch, RanGreen, Approved, can_publish-SinceDispatch,
}
use muti_repo_workspace.Tests.Samples.{a_plan, a_review, an_env, budgets, two_repos, empty_ledger}

abbrev fx : Effects String
fx = record {
  exec_implement =
      λ dir prompt repo n w. (returned (record { committed = true; head_sha = "bbb" }), "bbb");
  exec_tests = λ dir w. (returned (record { pass = true; status = some 0; output = "" }), w);
  rev_parse_head = λ dir w. returned w;
  commit_range_diff = λ dir base w. record { diff = w; complete = true };
  run_plan = λ instruction dir w. (returned a_plan, w);
  run_review = λ instruction plan diff dir w. (returned a_review, w);
  publish = λ ctx dir w. (returned (pushed w none), w);
  ask_human = λ q w. (returned "y", w);
  say = λ text w. w;
  show_for_approval = λ plan review diff w. w;
  diff_touches_tests = λ diff. false;
  stringify = λ snap. snap.ticket;
  write_ledger = λ dir file w. (returned tt, w);
  now = λ w. "now";
}

abbrev deps : ExecutorDeps
deps = record { instruction = "add a field"; approval_policy = some in_chat }

abbrev acts : List SpineAction
acts = plan_repo "api" ∷ run_worker "api" "edit" ∷ run_tests "api" ∷ review_diff "api" ∷ []

abbrev start : Executor String
start = create_executor empty_ledger "aaa"

passes : can_publish "api" (run_session fx deps acts start).1.ledger ≡ ok
unfolding run_session create_executor new_ledger can_publish get_repo lookup update put dispatch
    persist consume_action record_plan consume_worker_run record_worker_run record_tests
    record_review
passes = refl

can_publish-SinceDispatch_example :
    (h : String) × (v : Review) × AtHead h
      (get_repo "api" (run_session fx deps acts start).1.ledger)
    × SinceDispatch fx deps "api" h (RanGreen fx deps "api" h) start acts
    × SinceDispatch fx deps "api" h (Approved fx deps "api" h v) start acts
can_publish-SinceDispatch_example =
    can_publish-SinceDispatch fx deps an_env "T-1" two_repos budgets none "aaa" acts "api" passes

run_session-worker_calls_example :
    (cs : List Call) × Calls fx "aaa" cs (run_session fx deps acts start).1.world
    × (worker_calls cs ≤ empty_ledger.max_worker_runs)
run_session-worker_calls_example =
    run_session-worker_calls fx deps an_env "T-1" two_repos budgets none "aaa" acts

abbrev gated : Executor String
gated = (run_session fx deps acts start).1

dispatch-Acts_example :
    Acts fx deps (request_publish "api") gated (dispatch fx deps (request_publish "api") gated).1
dispatch-Acts_example = dispatch-Acts fx deps (request_publish "api") gated

dispatch-Spends_example :
    Spends start.ledger (dispatch fx deps (run_worker "api" "edit") start).1.ledger
dispatch-Spends_example = dispatch-Spends fx deps (run_worker "api" "edit") start

abbrev over_info : EndedInfo
over_info = record { kind = by_done; message = "finished" }

abbrev after_done : Executor String
after_done = (dispatch fx deps (done "finished") start).1

run_session-ended_example :
    ((run_session fx deps (done "finished" ∷ acts) start).1 ≡ after_done)
    × All
        (λ out. out ≡ fails session_ended (already_ended over_info))
        (run_session fx deps acts after_done).0
    × (length (run_session fx deps acts after_done).0 ≡ 4)
unfolding create_executor new_ledger
run_session-ended_example =
    run_session-ended fx deps (done "finished") acts start over_info refl refl refl (omega arith)

dispatch-cases_example :
    ((out : Outcome) × IsRefusal out × (dispatch fx deps (run_tests "api") start ≡ (out, start)))
    ⊎ ((start.ended ≡ none)
        × (start.is_busy ≡ false)
        × (dispatch fx deps (run_tests "api") start
            ≡ settle fx deps
                (run_action fx deps (run_tests "api") (record start { is_busy = true }))))
dispatch-cases_example = dispatch-cases fx deps (run_tests "api") start
