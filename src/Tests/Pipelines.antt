-- ===== src/Tests/Pipelines.antt =====
-- A run of harness/src/orchestrator.ts: the outside is the number of fixes, and the tests pass after one.
use muti_repo_workspace.Contracts.{Plan}
use muti_repo_workspace.Prelude.{ℕ, ◌+◌, true, false, none, some, ◌≡◌, refl, leb}
use muti_repo_workspace.Spine.Effects.{returned, pushed}
use muti_repo_workspace.Orchestrator.{
  Pipeline, OrchestratorOptions, published, finished, round, on_review, on_tests, publishes,
}
use muti_repo_workspace.Orchestrator.FixLoop.{
  exhausted, on_fix, on_round, fix_loop, on_publish_gate, on_loop, on_implement, on_base,
  on_plan_gate, on_plan, planned, run_orchestrator,
}
use muti_repo_workspace.Orchestrator.Clean.{Ends, fix_loop-Ends}
use muti_repo_workspace.Orchestrator.Published.{IsPlanned, run_orchestrator-IsPlanned}
use muti_repo_workspace.Tests.Samples.{a_plan, a_review}

abbrev pub pipeline : Pipeline ℕ
pipeline = record {
  run_plan = λ instruction w. (returned a_plan, w);
  approve_plan = λ plan w. (returned true, w);
  rev_parse_head = λ w. returned "aaa";
  exec_implement = λ instruction plan w. (returned tt, w);
  commit_range_diff = λ base w. record { diff = "+"; complete = true };
  run_review = λ instruction plan diff w. (returned a_review, w);
  exec_tests = λ w. (returned (record { pass = leb 1 w; status = some 0; output = "" }), w);
  exec_fix = λ instruction prompt n w. (returned tt, w + 1);
  diff_touches_tests = λ diff. false;
  approve_publish = λ info w. (returned true, w);
  publish = λ ctx w. (returned (pushed "bbb" none), w);
}

abbrev opts : OrchestratorOptions
opts = record { instruction = "add a field"; plan = none; base_sha = none }

publishes_after_a_fix : (run_orchestrator pipeline 3 opts 0).0 ≡ finished (published "bbb" none)
unfolding run_orchestrator on_plan on_plan_gate on_base on_implement fix_loop on_round round
    on_review on_tests on_fix exhausted on_loop on_publish_gate publishes
publishes_after_a_fix = refl

run_orchestrator-IsPlanned_example :
    (plan : Plan) × (w1 : ℕ) × (planned pipeline opts 0 ≡ (returned plan, w1))
    × IsPlanned pipeline 3 opts plan w1 (published "bbb" none)
run_orchestrator-IsPlanned_example =
    run_orchestrator-IsPlanned pipeline 3 opts 0 (published "bbb" none) publishes_after_a_fix refl

fix_loop-Ends_example :
    Ends pipeline "add a field" a_plan "aaa" 3 0
      (fix_loop pipeline 3 0 "add a field" a_plan "aaa" 0)
fix_loop-Ends_example = fix_loop-Ends pipeline "add a field" a_plan "aaa" 3 0
