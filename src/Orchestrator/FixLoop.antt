-- ===== src/Orchestrator/FixLoop.antt =====
-- harness/src/orchestrator.ts: the `while` loop, on the fixes that are left, and `runOrchestrator`.
use muti_repo_workspace.Contracts.{Plan, Review}
use muti_repo_workspace.Prelude.{
  ℕ, zero, suc, String, Bool, true, false, Option, none, some, if◌then◌else◌,
}
use muti_repo_workspace.Spine.Effects.{Attempt, returned, threw, PublishContext}
use muti_repo_workspace.Orchestrator.{
  Pipeline, OrchestratorOptions, plan_declined, publish_declined, not_ready, failed,
  incomplete_diff, not_clean, Run, finished, rejected, Round, clean, dirty, blinded, raises, Looped,
  passed, stopped, fix_prompt, round, publishes, PrePublishInfo,
}

module _ {W : Type 0} (fx : Pipeline W) where
  unfoldable pub exhausted : Round × W → Looped × W
  exhausted (clean review diff, w) = (passed review diff, w)
  exhausted (dirty review test, w) = (stopped (finished (failed not_clean)), w)
  exhausted (blinded, w) = (stopped (finished (failed incomplete_diff)), w)
  exhausted (raises message, w) = (stopped (rejected message), w)

  unfoldable pub on_fix : (W → Looped × W) → Attempt (Unit {0}) × W → Looped × W
  on_fix rest (threw message, w) = (stopped (rejected message), w)
  on_fix rest (returned _, w) = rest w

  -- A round with a fix left: `attempt` is its number, and `rest` the loop after it.
  unfoldable pub on_round : String → Plan → ℕ → (W → Looped × W) → Round × W → Looped × W
  on_round instruction plan attempt rest (clean review diff, w) = (passed review diff, w)
  on_round instruction plan attempt rest (blinded, w) =
      (stopped (finished (failed incomplete_diff)), w)
  on_round instruction plan attempt rest (raises message, w) = (stopped (rejected message), w)
  on_round instruction plan attempt rest (dirty review test, w) =
      on_fix rest (fx.exec_fix instruction (fix_prompt plan review test) attempt w)

  -- The loop with `left` fixes left after `attempt` fixes.
  unfoldable pub fix_loop : ℕ → ℕ → String → Plan → String → W → Looped × W
  fix_loop zero attempt instruction plan base w = exhausted (round fx instruction plan base w)
  fix_loop (suc left) attempt instruction plan base w =
      on_round instruction plan (suc attempt) (fix_loop left (suc attempt) instruction plan base)
        (round fx instruction plan base w)

  abbrev pub publish_context : Plan → Review → String → PublishContext
  publish_context plan review diff = record { plan = some plan; review = some review; diff = diff }

  unfoldable pub on_publish_gate : Plan → Review → String → Attempt Bool × W → Run × W
  on_publish_gate plan review diff (threw message, w) = (rejected message, w)
  on_publish_gate plan review diff (returned false, w) = (finished publish_declined, w)
  on_publish_gate plan review diff (returned true, w) =
      publishes fx (fx.publish (publish_context plan review diff) w)

  abbrev pub publish_info : Plan → Review → String → PrePublishInfo
  publish_info plan review diff = record {
    plan_summary = plan.summary;
    review = some review;
    diff = diff;
    touches_tests = fx.diff_touches_tests diff;
  }

  unfoldable pub on_loop : Plan → Looped × W → Run × W
  on_loop plan (stopped out, w) = (out, w)
  on_loop plan (passed review diff, w) =
      on_publish_gate plan review diff (fx.approve_publish (publish_info plan review diff) w)

  unfoldable pub on_implement : ℕ → String → Plan → String → Attempt (Unit {0}) × W → Run × W
  on_implement max_fixes instruction plan base (threw message, w) = (rejected message, w)
  on_implement max_fixes instruction plan base (returned _, w) =
      on_loop plan (fix_loop max_fixes 0 instruction plan base w)

  unfoldable pub on_base : ℕ → String → Plan → W → Attempt String → Run × W
  on_base max_fixes instruction plan w (threw message) = (rejected message, w)
  on_base max_fixes instruction plan w (returned base) =
      on_implement max_fixes instruction plan base (fx.exec_implement instruction plan w)

  abbrev pub base_of : Option String → W → Attempt String
  base_of none w = fx.rev_parse_head w
  base_of (some sha) w = returned sha

  unfoldable pub on_plan_gate : ℕ → OrchestratorOptions → Plan → Attempt Bool × W → Run × W
  on_plan_gate max_fixes opts plan (threw message, w) = (rejected message, w)
  on_plan_gate max_fixes opts plan (returned false, w) = (finished plan_declined, w)
  on_plan_gate max_fixes opts plan (returned true, w) =
      on_base max_fixes opts.instruction plan w (base_of opts.base_sha w)

  unfoldable pub on_plan : ℕ → OrchestratorOptions → Attempt Plan × W → Run × W
  on_plan max_fixes opts (threw message, w) = (rejected message, w)
  on_plan max_fixes opts (returned plan, w) =
      if plan.ready_to_implement
      then on_plan_gate max_fixes opts plan (fx.approve_plan plan w)
      else (finished not_ready, w)

  abbrev pub planned : OrchestratorOptions → W → Attempt Plan × W
  planned opts w = elim opts.plan [
    | none ↦ fx.run_plan opts.instruction w
    | some plan ↦ (returned plan, w)
  ]

  -- `MAX_FIX_ATTEMPTS` of harness/src/sdk.ts is an argument.
  unfoldable pub run_orchestrator : ℕ → OrchestratorOptions → W → Run × W
  run_orchestrator max_fixes opts w = on_plan max_fixes opts (planned opts w)
