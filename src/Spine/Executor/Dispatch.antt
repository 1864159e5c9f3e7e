-- ===== src/Spine/Executor/Dispatch.antt =====
-- harness/src/spine/executor.ts: the `switch` of `runAction`, and `dispatch`.

use muti_repo_workspace.Prelude.{true, false, none, some, Option, Bool, true, false}
use muti_repo_workspace.Spine.Ledger.{ok, refused, consume_action}
use muti_repo_workspace.Spine.Ledger.Store.{persist}
use muti_repo_workspace.Spine.Actions.{
  SpineAction, run_worker, run_tests, review_diff, plan_repo, ask_human, show_human,
  request_publish, done, abort, budget_exhausted, busy, session_ended, EndedInfo, by_done, by_abort,
  reason, already_executing, already_ended, shown_ok, ended_ok,
}
use muti_repo_workspace.Spine.Effects.{Effects, returned, threw}
use muti_repo_workspace.Spine.Executor.State.{
  ExecutorDeps, Executor, Outcome, answered, rejected, fails, require_repo,
}
use muti_repo_workspace.Spine.Executor.Steps.{work, test, review, make_plan, ask}
use muti_repo_workspace.Spine.Executor.Publish.{ask_publish}

module _ {W : Type 0} (fx : Effects W) (deps : ExecutorDeps) where
  abbrev pub ends : EndedInfo → Executor W → Outcome × Executor W
  ends info s = (answered ended_ok, record s { ended = some info })

  -- The `switch` of `runAction`.
  unfoldable pub act : SpineAction → Executor W → Outcome × Executor W
  unfolding work test review make_plan ask ask_publish
  act (run_worker repo instruction) = require_repo repo (work fx deps repo instruction)
  act (run_tests repo) = require_repo repo (test fx deps repo)
  act (review_diff repo) = require_repo repo (review fx deps repo)
  act (plan_repo repo) = require_repo repo (make_plan fx deps repo)
  act (ask_human question) = ask fx deps question
  act (show_human content) = λ s. (answered shown_ok, record s { world = fx.say content s.world })
  act (request_publish repo) = require_repo repo (ask_publish fx deps repo)
  act (done summary) = ends (record { kind = by_done; message = summary })
  act (abort why) = ends (record { kind = by_abort; message = why })

  unfoldable pub run_action : SpineAction → Executor W → Outcome × Executor W
  unfolding act
  run_action action s =
      let (l, check) = consume_action s.ledger in
      elim check [
        | refused r ↦ (fails budget_exhausted (reason r), record s { ledger = l })
        | ok ↦ act action (record s { ledger = l })
      ]

  -- The `finally` of `dispatch`: a throw of `persist` replaces the outcome.
  unfoldable pub settle : Outcome × Executor W → Outcome × Executor W
  settle (out, s) =
      let s' : Executor W = record s { is_busy = false } in
      elim (persist fx.stringify (fx.now s.world) none s.ledger) [
        | none ↦ (
          rejected "SpineLedger.persist(): no directory given and none resolved at construction",
          s',
        )
        | some (dir, file) ↦
            let (result, w) = fx.write_ledger dir file s.world in
            elim result [
              | returned u ↦ (out, record s' { world = w })
              | threw m ↦ (rejected m, record s' { world = w })
            ]
      ]

  -- `dispatch` on `ended` and `busy`.
  unfoldable pub admit : Option EndedInfo → Bool → SpineAction → Executor W → Outcome × Executor W
  admit (some info) in_flight action s = (fails session_ended (already_ended info), s)
  admit none true action s = (fails busy already_executing, s)
  admit none false action s = settle (run_action action (record s { is_busy = true }))

  unfoldable pub dispatch : SpineAction → Executor W → Outcome × Executor W
  unfolding run_action settle admit
  dispatch action s = admit s.ended s.is_busy action s
