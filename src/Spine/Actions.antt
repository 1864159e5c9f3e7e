-- ===== src/Spine/Actions.antt =====
-- harness/src/spine/actions.ts: the actions, the results and the failure codes. The text of a
-- failure is a constructor that holds the values which the text shows.
use muti_repo_workspace.Contracts.{Plan, Verdict, ReviewFinding}
use muti_repo_workspace.Prelude.{ℕ, String, Bool, Option, List}
use muti_repo_workspace.Spine.Ledger.{Reason}

pub data SpineAction : Type 0 where
  run_worker : String → String → SpineAction
  run_tests review_diff plan_repo : String → SpineAction
  ask_human show_human : String → SpineAction
  request_publish : String → SpineAction
  done abort : String → SpineAction

pub data ActionErrorCode : Type 0 where
  invalid_action budget_exhausted busy invariants_not_met repo_unknown : ActionErrorCode
  step_failed publish_declined publish_failed session_ended : ActionErrorCode

pub data EndedKind : Type 0 where
  by_done by_abort : EndedKind

pub record EndedInfo : Type 0 where
  pub kind : EndedKind
  pub message : String

pub data ErrorText : Type 0 where
  reason : Reason → ErrorText
  thrown : String → ErrorText
  not_in_ticket : String → List String → ErrorText
  incomplete_diff incomplete_before_publish : String → ErrorText
  declined_at_caveat declined_publish already_executing : ErrorText
  already_ended : EndedInfo → ErrorText

pub data ActionResult : Type 0 where
  worker_ok : Bool → String → ActionResult
  tests_ok : Bool → Option ℕ → String → ActionResult
  review_ok : Verdict → List ReviewFinding → String → ActionResult
  plan_ok : Plan → ActionResult
  answer_ok : String → ActionResult
  shown_ok : ActionResult
  published_ok : String → Option String → ActionResult
  stub_ok : ActionResult
  ended_ok : ActionResult
  failure : ActionErrorCode → ErrorText → ActionResult
