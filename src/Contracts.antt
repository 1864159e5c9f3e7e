-- ===== src/Contracts.antt =====
-- harness/src/types.ts: the typed verdicts that the pipeline trusts from a model.
use muti_repo_workspace.Prelude.{String, Bool, true, false, List, [], ◌∷◌, Option}

pub record Plan : Type 0 where
  pub summary : String
  pub steps : List String
  pub risks : List String
  pub ready_to_implement : Bool

pub data Severity : Type 0 where
  blocker major minor : Severity

pub record ReviewFinding : Type 0 where
  pub severity : Severity
  pub file : Option String
  pub detail : String

pub data Verdict : Type 0 where
  approve request_changes : Verdict

abbrev pub is_approve : Verdict → Bool
is_approve approve = true
is_approve request_changes = false

pub record Review : Type 0 where
  pub verdict : Verdict
  pub findings : List ReviewFinding
  pub summary : String

-- `PlanSchema` asks for at least one step (`.min(1)`); the field types are those of `Plan`.
unfoldable pub plan_schema_ok : Plan → Bool
plan_schema_ok p = elim p.steps [ [] ↦ false | _ ∷ _ ↦ true ]
