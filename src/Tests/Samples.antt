-- ===== src/Tests/Samples.antt =====
-- A plan, a review and a ledger of two repos, for the runs.
use muti_repo_workspace.Contracts.{Plan, Review, approve}
use muti_repo_workspace.Prelude.{true, none, some, List, [], ◌∷◌, Dict}
use muti_repo_workspace.Spine.Ledger.{
  SpineLedger, SpineEnv, LedgerRepoInit, LedgerBudgets, new_ledger, natural, unset,
}
use muti_repo_workspace.Spine.Ledger.Trace.{
  LedgerOp, worker_ran, tests_ran, reviewed, plan_made, apply_all,
}

abbrev pub a_plan : Plan
a_plan = record {
  summary = "add a field";
  steps = "edit" ∷ [];
  risks = [];
  ready_to_implement = true;
}

abbrev pub a_review : Review
a_review = record { verdict = approve; findings = []; summary = "fine" }

abbrev pub an_env : SpineEnv
an_env = record { actions_var = natural 20; worker_runs_var = unset }

abbrev pub budgets : LedgerBudgets
budgets = record { max_actions = none; max_worker_runs = some 2 }

abbrev pub api_init : LedgerRepoInit
api_init = record { repo_dir = "/t/api"; base_sha = "aaa" }

abbrev pub two_repos : Dict LedgerRepoInit
two_repos = ("api", api_init) ∷ ("web", record { repo_dir = "/t/web"; base_sha = "ccc" }) ∷ []

abbrev pub empty_ledger : SpineLedger
empty_ledger = new_ledger an_env "T-1" two_repos budgets none

abbrev pub to_green : List LedgerOp
to_green =
    plan_made "api" a_plan
    ∷ worker_ran "api" true "bbb"
    ∷ tests_ran "api" true "bbb"
    ∷ reviewed "api" a_review "bbb"
    ∷ []

abbrev pub green_ledger : SpineLedger
green_ledger = apply_all to_green empty_ledger
