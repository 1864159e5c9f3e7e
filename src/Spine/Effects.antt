-- ===== src/Spine/Effects.antt =====
-- What harness/src/spine/executor.ts calls: the worker, the test gate, git, the model's plan and
-- review steps, the broker, the terminal and the disk, over a state `W` of everything outside the
-- executor. A call that rejects or throws gives `threw` with the error's message. The callees are
-- in harness/src/exec.ts, gitops.ts, steps.ts and publish.ts; all end in git, a model session or a
-- socket, so nothing is assumed of them.
use muti_repo_workspace.Contracts.{Plan, Review}
use muti_repo_workspace.Prelude.{ℕ, String, Bool, Option}
use muti_repo_workspace.Spine.Ledger.Store.{LedgerSnapshot}

pub data Attempt {ℓ} (A : Type ℓ) : Type ℓ where
  returned : A → Attempt A
  threw : String → Attempt A

pub record CommitResult : Type 0 where
  pub committed : Bool
  pub head_sha : String

pub record TestResult : Type 0 where
  pub pass : Bool
  pub status : Option ℕ
  pub output : String

pub record RangeDiff : Type 0 where
  pub diff : String
  pub complete : Bool

-- The values that `buildWorkerPrompt` puts into its template.
pub record WorkerPrompt : Type 0 where
  pub plan : Option Plan
  pub instruction : String

pub record PublishContext : Type 0 where
  pub plan : Option Plan
  pub review : Option Review
  pub diff : String

pub data PublishResult : Type 0 where
  pushed : String → Option String → PublishResult
  stub : PublishResult

pub data Question : Type 0 where
  asked : String → Question
  acknowledge_tests confirm_publish : Question

pub record Effects (W : Type 0) : Type 0 where
  -- The repo's directory, the prompt, and the repo and run number of the commit message.
  pub exec_implement : String → WorkerPrompt → String → ℕ → W → Attempt CommitResult × W
  pub exec_tests : String → W → Attempt TestResult × W
  pub rev_parse_head : String → W → Attempt String
  pub commit_range_diff : String → String → W → RangeDiff
  pub run_plan : String → String → W → Attempt Plan × W
  pub run_review : String → Plan → String → String → W → Attempt Review × W
  pub publish : PublishContext → String → W → Attempt PublishResult × W
  pub ask_human : Question → W → Attempt String × W
  pub say : String → W → W
  pub show_for_approval : Option Plan → Option Review → String → W → W
  pub diff_touches_tests : String → Bool
  pub stringify : LedgerSnapshot → String
  pub write_ledger : String → String → W → Attempt (Unit {0}) × W
  pub now : W → String
