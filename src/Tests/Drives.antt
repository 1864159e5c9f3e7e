-- ===== src/Tests/Drives.antt =====
-- Runs of harness/src/multi/driver.ts: the outside is that of the runs of the pipeline, and every call
-- answers.

use muti_repo_workspace.Prelude.{ℕ, String, true, none, some, [], ◌∷◌, ◌≡◌, refl, lookup}
use muti_repo_workspace.Spine.Effects.{returned}
use muti_repo_workspace.Orchestrator.{round, on_review, on_tests, publishes}
use muti_repo_workspace.Orchestrator.FixLoop.{
  on_plan, on_plan_gate, on_base, on_implement, on_loop, fix_loop, on_round, on_fix,
  on_publish_gate,
}
use muti_repo_workspace.Multi.{
  RepoConfig, WorkspaceConfig, published, RepoState, TicketState, DriverArgs, is_published,
}
use muti_repo_workspace.Multi.Actions.{Host, Machine}
use muti_repo_workspace.Multi.Driver.{run_driver, drive}
use muti_repo_workspace.Multi.Triples.{Ends}
use muti_repo_workspace.Multi.Kept.{Records, run_driver-keeps_published}
use muti_repo_workspace.Multi.Told.{Tells}
use muti_repo_workspace.Multi.Exit.{drive-Tells}
use muti_repo_workspace.Multi.Recorded.{has_outcome, selects}
use muti_repo_workspace.Multi.Returns.{Succeeds}
use muti_repo_workspace.Multi.Progress.{drive-ends}
use muti_repo_workspace.Tests.Samples.{a_plan}
use muti_repo_workspace.Tests.Pipelines.{pipeline}

abbrev config : String → RepoConfig
config name = record { name = name; url = none; desc = none; repo_type = none; sparse_paths = none }

abbrev workspace : WorkspaceConfig
workspace = record { branch_prefix = "feat/"; default_purpose = "dev"; ticket_id_pattern = none }

abbrev host : Host ℕ
host = record {
  load_workspace = λ w. returned workspace;
  load_repos = λ w. returned (config "app" ∷ config "docs" ∷ []);
  matches = λ pattern ticket. returned true;
  exec_setup_worktree = λ repo ticket branch purpose w.
      (returned (record { repo_dir = repo.name; base_sha = "aaa" }), w);
  run_plan = λ instruction dir w. (returned a_plan, w);
  human_approval = λ n w. (returned true, w);
  write_state = λ state w. (returned tt, w);
  pipeline = λ dir label. pipeline;
}

abbrev drive_args : DriverArgs
drive_args = record { ticket = "T-1"; instruction = "another text"; repos = []; purpose = "" }

abbrev app_entry : RepoState
app_entry = record {
  outcome = published;
  sha = some "abc";
  pr_url = none;
  reason = none;
  branch = some "feat/T-1";
  worktree = some "app";
}

abbrev half_done : TicketState
half_done = record {
  ticket = "T-1";
  instruction = "add a field";
  branch = "feat/T-1";
  purpose = "dev";
  repos = ("app", app_entry) ∷ [];
}

abbrev resumed : Machine ℕ
resumed = record { world = 0; saved = some half_done }

app_is_recorded : lookup "app" half_done.repos ≡ some app_entry
unfolding lookup
app_is_recorded = refl

run_driver-keeps_published_example :
    (st' : TicketState) × ((run_driver host 3 drive_args resumed).1.saved ≡ some st')
    × Records "app" app_entry "add a field" st'
run_driver-keeps_published_example =
    run_driver-keeps_published host 3 drive_args resumed half_done "app" app_entry refl
      app_is_recorded refl

drive-Tells_example :
    Ends
      (λ code s'.
        (st : TicketState) × (s'.saved ≡ some st)
        × Tells (config "app" ∷ config "docs" ∷ []) st code)
      (λ s'. Unit)
      (drive host 3 drive_args workspace (config "app" ∷ config "docs" ∷ []) resumed)
drive-Tells_example =
    drive-Tells host 3 drive_args workspace (config "app" ∷ config "docs" ∷ []) resumed

publishes_the_rest : (run_driver host 3 drive_args resumed).0 ≡ returned 0
unfolding run_driver drive on_plan on_plan_gate on_base on_implement on_loop fix_loop on_round round
    on_review on_tests on_fix on_publish_gate publishes
publishes_the_rest = refl

-- The same outside, where the tests pass at once.
abbrev green_host : Host ℕ
green_host = record host {
  pipeline = λ dir label. record pipeline {
    exec_tests = λ w. (returned (record { pass = true; status = some 0; output = "" }), w);
  };
}

green_host-Succeeds : Succeeds green_host
green_host-Succeeds = record {
  sets_up = λ repo ticket branch purpose w. (_, w, refl);
  plans = λ instruction dir w. (_, w, refl, refl);
  writes = λ state w. (_, w, refl);
  approves = λ n w. (_, w, refl, refl);
  runs = λ it. record {
    approves = λ plan w. (_, w, refl, refl);
    implements = λ instruction plan w. (_, w, refl, refl);
    complete = λ base w. refl;
    reviews = λ instruction plan diff w. (_, w, refl, refl);
    tests = λ w. (_, w, refl, refl);
    ships = λ info w. (_, w, refl, refl);
    pushes = λ context w. (_, w, refl, refl);
  };
}

drive-ends_example :
    let (out, s') =
      drive green_host 3 drive_args workspace (config "app" ∷ config "docs" ∷ []) resumed in
    (out ≡ returned 0)
    × ((st : TicketState) × (s'.saved ≡ some st)
        × ((n : String)
            → selects n (config "app" ∷ config "docs" ∷ []) ≡ true
            → has_outcome is_published st n ≡ true))
drive-ends_example =
    drive-ends green_host green_host-Succeeds 3 drive_args workspace
      (config "app" ∷ config "docs" ∷ []) resumed
