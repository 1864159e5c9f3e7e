-- ===== src/Orchestrator.antt =====
-- harness/src/orchestrator.ts: the pipeline of one repo, PLAN, IMPLEMENT, REVIEW and TEST with at
-- most `MAX_FIX_ATTEMPTS` fixes, and PUBLISH. Console lines are left out.
pub mod FixLoop
pub mod Clean
pub mod Published
pub mod Shipping
use muti_repo_workspace.Contracts.{Plan, Review, Verdict, approve, request_changes, is_approve}
use muti_repo_workspace.Prelude.{
  ℕ, zero, suc, String, Bool, true, false, not, ◌&&◌, Option, none, some, if◌then◌else◌,
}
use muti_repo_workspace.Spine.Effects.{
  Attempt, returned, threw, TestResult, RangeDiff, PublishContext, PublishResult, pushed, stub,
}

-- Without the label and the directory, which name the repo.
pub record PrePublishInfo : Type 0 where
  pub plan_summary : String
  pub review : Option Review
  pub diff : String
  pub touches_tests : Bool

-- The values that `buildFixPrompt` puts into its template.
pub record FixPrompt : Type 0 where
  pub plan : Plan
  pub review : Option Review
  pub test_output : Option String

-- What the pipeline calls, over a state `W` of the outside; the gates are those of the options or
-- the default ones.
pub record Pipeline (W : Type 0) : Type 0 where
  pub run_plan : String → W → Attempt Plan × W
  pub approve_plan : Plan → W → Attempt Bool × W
  pub rev_parse_head : W → Attempt String
  pub exec_implement : String → Plan → W → Attempt (Unit {0}) × W
  pub commit_range_diff : String → W → RangeDiff
  pub run_review : String → Plan → String → W → Attempt Review × W
  pub exec_tests : W → Attempt TestResult × W
  pub exec_fix : String → FixPrompt → ℕ → W → Attempt (Unit {0}) × W
  pub diff_touches_tests : String → Bool
  pub approve_publish : PrePublishInfo → W → Attempt Bool × W
  pub publish : PublishContext → W → Attempt PublishResult × W

-- Without the label, the directory and the gates, which are in `Pipeline`.
pub record OrchestratorOptions : Type 0 where
  pub instruction : String
  pub plan : Option Plan
  pub base_sha : Option String

pub data FailReason : Type 0 where
  incomplete_diff : FailReason
  not_clean : FailReason
  publish_threw : String → FailReason

pub data OrchestratorResult : Type 0 where
  published : String → Option String → OrchestratorResult
  published_stub : OrchestratorResult
  plan_declined publish_declined : OrchestratorResult
  not_ready : OrchestratorResult
  failed : FailReason → OrchestratorResult

-- A promise that rejects is `rejected`.
pub data Run : Type 0 where
  finished : OrchestratorResult → Run
  rejected : String → Run

-- One REVIEW and TEST of the loop.
pub data Round : Type 0 where
  clean : Review → String → Round
  dirty : Review → TestResult → Round
  blinded : Round
  raises : String → Round

-- How the loop is left.
pub data Looped : Type 0 where
  passed : Review → String → Looped
  stopped : Run → Looped

abbrev pub judge : Review → String → TestResult → Round
judge review diff test =
    if is_approve review.verdict && test.pass then clean review diff else dirty review test

abbrev pub fix_prompt : Plan → Review → TestResult → FixPrompt
fix_prompt plan review test = record {
  plan = plan;
  review = if is_approve review.verdict then none else some review;
  test_output = if test.pass then none else some test.output;
}

module _ {W : Type 0} (fx : Pipeline W) where
  unfoldable pub on_tests : Review → String → Attempt TestResult × W → Round × W
  on_tests review diff (threw message, w) = (raises message, w)
  on_tests review diff (returned test, w) = (judge review diff test, w)

  unfoldable pub on_review : String → Attempt Review × W → Round × W
  on_review diff (threw message, w) = (raises message, w)
  on_review diff (returned review, w) = on_tests review diff (fx.exec_tests w)

  -- The body of the `while` up to its break.
  unfoldable pub round : String → Plan → String → W → Round × W
  round instruction plan base w =
      let wd = fx.commit_range_diff base w in
      if wd.complete
      then on_review wd.diff (fx.run_review instruction plan wd.diff w)
      else (blinded, w)

  unfoldable pub publishes : Attempt PublishResult × W → Run × W
  publishes (threw message, w) = (finished (failed (publish_threw message)), w)
  publishes (returned (pushed sha pr_url), w) = (finished (published sha pr_url), w)
  publishes (returned stub, w) = (finished published_stub, w)
