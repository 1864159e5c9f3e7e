-- ===== src/Spine/Executor/Steps.antt =====
-- harness/src/spine/executor.ts: the cases of `runAction` that run a step and record its verdict.

use muti_repo_workspace.Prelude.{String, if◌then◌else◌}
use muti_repo_workspace.Spine.Ledger.{
  RepoLedgerEntry, ok, refused, consume_worker_run, record_worker_run, record_tests, record_review,
  record_plan, or_default,
}
use muti_repo_workspace.Spine.Actions.{
  budget_exhausted, step_failed, reason, thrown, incomplete_diff, worker_ok, tests_ok, review_ok,
  plan_ok, answer_ok,
}
use muti_repo_workspace.Spine.Effects.{Effects, returned, threw, asked}
use muti_repo_workspace.Spine.Executor.State.{
  ExecutorDeps, Executor, Outcome, answered, rejected, minimal_plan, fails, with_ledger,
  next_worker_run_seq,
}

module _ {W : Type 0} (fx : Effects W) (deps : ExecutorDeps) where
  unfoldable pub implement : String → String → RepoLedgerEntry → Executor W → Outcome × Executor W
  unfolding next_worker_run_seq
  implement repo instruction e s =
      let (s', seq) = next_worker_run_seq repo s in
      let (result, w) =
        fx.exec_implement e.repo_dir (record { plan = e.plan; instruction = instruction }) repo seq
          s'.world in
      elim result [
        | returned c ↦ (
          answered (worker_ok c.committed c.head_sha),
          with_ledger (record_worker_run repo c.committed c.head_sha) w s',
        )
        | threw m ↦ (fails step_failed (thrown m), record s' { world = w })
      ]

  unfoldable pub work : String → String → RepoLedgerEntry → Executor W → Outcome × Executor W
  unfolding implement
  work repo instruction e s =
      let (l, check) = consume_worker_run s.ledger in
      elim check [
        | refused r ↦ (fails budget_exhausted (reason r), record s { ledger = l })
        | ok ↦ implement repo instruction e (record s { ledger = l })
      ]

  unfoldable pub test : String → RepoLedgerEntry → Executor W → Outcome × Executor W
  test repo e s =
      let (result, w) = fx.exec_tests e.repo_dir s.world in
      elim result [
        | threw m ↦ (fails step_failed (thrown m), record s { world = w })
        | returned t ↦ elim (fx.rev_parse_head e.repo_dir w) [
          | threw m ↦ (fails step_failed (thrown m), record s { world = w })
          | returned at_sha ↦ (
            answered (tests_ok t.pass t.status t.output),
            with_ledger (record_tests repo t.pass at_sha) w s,
          )
        ]
      ]

  unfoldable pub judge : String → String → RepoLedgerEntry → Executor W → Outcome × Executor W
  unfolding minimal_plan
  judge repo diff e s =
      let (result, w) =
        fx.run_review deps.instruction (or_default e.plan (minimal_plan repo)) diff e.repo_dir
          s.world in
      elim result [
        | threw m ↦ (fails step_failed (thrown m), record s { world = w })
        | returned v ↦ elim (fx.rev_parse_head e.repo_dir w) [
          | threw m ↦ (fails step_failed (thrown m), record s { world = w })
          | returned at_sha ↦ (
            answered (review_ok v.verdict v.findings v.summary),
            with_ledger (record_review repo v at_sha) w s,
          )
        ]
      ]

  unfoldable pub review : String → RepoLedgerEntry → Executor W → Outcome × Executor W
  unfolding judge
  review repo e s =
      let wd = fx.commit_range_diff e.repo_dir e.base_sha s.world in
      if wd.complete
      then judge repo wd.diff e s
      else (fails step_failed (incomplete_diff wd.diff), s)

  unfoldable pub make_plan : String → RepoLedgerEntry → Executor W → Outcome × Executor W
  make_plan repo e s =
      let (result, w) = fx.run_plan deps.instruction e.repo_dir s.world in
      elim result [
        | returned p ↦ (answered (plan_ok p), with_ledger (record_plan repo p) w s)
        | threw m ↦ (fails step_failed (thrown m), record s { world = w })
      ]

  unfoldable pub ask : String → Executor W → Outcome × Executor W
  ask question s =
      let (result, w) = fx.ask_human (asked question) s.world in
      elim result [
        | returned a ↦ (answered (answer_ok a), record s { world = w })
        | threw m ↦ (rejected m, record s { world = w })
      ]
