-- ===== src/Spine/Executor/Publish.antt =====
-- harness/src/spine/executor.ts: the case `request_publish` of `runAction`.

use muti_repo_workspace.Contracts.{Review}
use muti_repo_workspace.Prelude.{String, Option, none, some, if◌then◌else◌}
use muti_repo_workspace.Spine.Ledger.{
  RepoLedgerEntry, ReviewApproved, ok, refused, record_published, can_publish, or_default,
}
use muti_repo_workspace.Spine.Actions.{
  invariants_not_met, step_failed, publish_declined, publish_failed, ErrorText, reason, thrown,
  incomplete_before_publish, declined_at_caveat, declined_publish, published_ok, stub_ok,
}
use muti_repo_workspace.Spine.Effects.{
  Attempt, Effects, returned, threw, pushed, stub, Question, acknowledge_tests, confirm_publish,
}
use muti_repo_workspace.Spine.Executor.State.{
  in_chat, ExecutorDeps, Executor, Outcome, answered, rejected, is_yes, is_in_chat, fails,
  with_ledger,
}

module _ {W : Type 0} (fx : Effects W) (deps : ExecutorDeps) where
  -- The `try` around `publish`; `reviewApproved!.review` throws on null.
  unfoldable pub send : String → String → RepoLedgerEntry → Executor W → Outcome × Executor W
  send repo diff e s = elim e.review_approved [
    | none ↦ (fails publish_failed (thrown "Cannot read properties of null (reading 'review')"), s)
    | some v ↦
        let (result, w) =
          fx.publish (record { plan = e.plan; review = some v.review; diff = diff }) e.repo_dir
            s.world in
        elim result [
          | threw m ↦ (fails publish_failed (thrown m), record s { world = w })
          | returned r ↦ elim r [
            | pushed sha pr_url ↦ (
              answered (published_ok sha pr_url),
              with_ledger (record_published repo sha pr_url) w s,
            )
            | stub ↦ (answered stub_ok, record s { world = w })
          ]
        ]
  ]

  -- A y/N question, with what a yes goes on to.
  abbrev pub on_answer :
      ErrorText
      → (Executor W → Outcome × Executor W)
      → Attempt String
      → Executor W
      → Outcome × Executor W
  on_answer text k (threw m) s = (rejected m, s)
  on_answer text k (returned a) s = if is_yes a then k s else (fails publish_declined text, s)

  abbrev pub on_yes :
      Question → ErrorText → (Executor W → Outcome × Executor W) → Executor W → Outcome × Executor W
  on_yes question text k s =
      let (result, w) = fx.ask_human question s.world in
      on_answer text k result (record s { world = w })

  abbrev pub shown_review : Option ReviewApproved → Option Review
  shown_review none = none
  shown_review (some r) = some r.review

  unfoldable pub confirm : String → String → RepoLedgerEntry → Executor W → Outcome × Executor W
  unfolding send is_yes
  confirm repo diff e = on_yes confirm_publish declined_publish (send repo diff e)

  unfoldable pub approve_in_chat :
      String → String → RepoLedgerEntry → Executor W → Outcome × Executor W
  unfolding confirm
  approve_in_chat repo diff e s =
      let w = fx.show_for_approval e.plan (shown_review e.review_approved) diff s.world in
      let s' : Executor W = record s { world = w } in
      if fx.diff_touches_tests diff
      then on_yes acknowledge_tests declined_at_caveat (confirm repo diff e) s'
      else confirm repo diff e s'

  unfoldable pub publish_gated : String → RepoLedgerEntry → Executor W → Outcome × Executor W
  unfolding approve_in_chat
  publish_gated repo e s =
      let wd = fx.commit_range_diff e.repo_dir e.base_sha s.world in
      if wd.complete
      then if is_in_chat (or_default deps.approval_policy in_chat)
        then approve_in_chat repo wd.diff e s
        else send repo wd.diff e s
      else (fails step_failed (incomplete_before_publish wd.diff), s)

  unfoldable pub ask_publish : String → RepoLedgerEntry → Executor W → Outcome × Executor W
  unfolding publish_gated
  ask_publish repo e s = elim (can_publish repo s.ledger) [
    | refused r ↦ (fails invariants_not_met (reason r), s)
    | ok ↦ publish_gated repo e s
  ]
