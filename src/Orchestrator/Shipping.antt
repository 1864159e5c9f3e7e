-- ===== src/Orchestrator/Shipping.antt =====
-- harness/src/orchestrator.ts: a pipeline on which every step succeeds at once.
use muti_repo_workspace.Prelude.{
  ℕ, zero, suc, String, Bool, true, false, some, ◌≡◌, refl, arith, ap, sym, subst, ◌&&◌, ◌∙◌,
  if◌then◌else◌,
}
use muti_repo_workspace.Contracts.{Plan, Review, is_approve}
use muti_repo_workspace.Spine.Effects.{
  Attempt, returned, TestResult, PublishResult, PublishContext, pushed, stub,
}
use muti_repo_workspace.Orchestrator.{
  Pipeline, OrchestratorOptions, published, published_stub, plan_declined, publish_declined,
  not_ready, failed, Run, finished, rejected, dirty, blinded, Round, clean, passed, PrePublishInfo,
  on_tests, on_review, round, publishes,
}
use muti_repo_workspace.Orchestrator.FixLoop.{
  fix_loop, on_publish_gate, on_loop, on_implement, on_base, on_plan_gate, on_plan,
  run_orchestrator, exhausted, on_round,
}

-- The call answers, with a value that passes `p`.
abbrev pub Gives : {W A : Type 0} → (A → Bool) → Attempt A × W → Type 0
Gives {W} {A} p r = (a : A) × (w : W) × (r ≡ (returned a, w)) × (p a ≡ true)

-- A ready plan is approved, implemented, reviewed well, tested well and published.
pub record Smooth {W : Type 0} (fx : Pipeline W) : Type 0 where
  pub approves : (plan : Plan) (w : W) → Gives (λ b. b) (fx.approve_plan plan w)
  pub implements :
      (instruction : String) (plan : Plan) (w : W)
      → Gives (λ _. true) (fx.exec_implement instruction plan w)
  pub complete : (base : String) (w : W) → (fx.commit_range_diff base w).complete ≡ true
  pub reviews :
      (instruction : String) (plan : Plan) (diff : String) (w : W)
      → Gives (λ v. is_approve v.verdict) (fx.run_review instruction plan diff w)
  pub tests : (w : W) → Gives (λ t. t.pass) (fx.exec_tests w)
  pub ships : (info : PrePublishInfo) (w : W) → Gives (λ b. b) (fx.approve_publish info w)
  pub pushes : (context : PublishContext) (w : W) → Gives (λ _. true) (fx.publish context w)

-- Pushed, or handed to the stub.
abbrev pub is_shipped : Run → Bool
is_shipped (finished (published sha pr_url)) = true
is_shipped (finished published_stub) = true
is_shipped (finished plan_declined) = false
is_shipped (finished publish_declined) = false
is_shipped (finished not_ready) = false
is_shipped (finished (failed reason)) = false
is_shipped (rejected message) = false

module _ {W : Type 0} (fx : Pipeline W) (ok : Smooth fx) where
  publishes-shipped :
      (r : Attempt PublishResult × W) → Gives (λ _. true) r → is_shipped (publishes fx r).0 ≡ true
  unfolding publishes
  publishes-shipped r (pushed sha pr_url, w, e, _) =
      subst (λ r. is_shipped (publishes fx r).0 ≡ true) (sym e) refl
  publishes-shipped r (stub, w, e, _) =
      subst (λ r. is_shipped (publishes fx r).0 ≡ true) (sym e) refl

  on_publish_gate-shipped :
      (plan : Plan) (v : Review) (diff : String) (r : Attempt Bool × W)
      → Gives (λ b. b) r
      → is_shipped (on_publish_gate fx plan v diff r).0 ≡ true
  unfolding on_publish_gate
  on_publish_gate-shipped plan v diff r (false, w, e, agreed) = cc
  on_publish_gate-shipped plan v diff r (true, w, e, agreed) =
      subst (λ r. is_shipped (on_publish_gate fx plan v diff r).0 ≡ true) (sym e)
        (publishes-shipped (fx.publish _ w) (ok.pushes _ w))

  -- The round is clean.
  abbrev Passes : Round × W → Type 0
  Passes r = (v : Review) × (diff : String) × (w : W) × (r ≡ (clean v diff, w))

  on_tests-Passes :
      (v : Review) (diff : String) (r : Attempt TestResult × W)
      → is_approve v.verdict ≡ true
      → Gives (λ t. t.pass) r
      → Passes (on_tests fx v diff r)
  unfolding on_tests
  on_tests-Passes v diff r agreed (t, w, e, green) =
      let both : is_approve v.verdict && t.pass ≡ true = ground arith in
      (
        v,
        diff,
        w,
        ap (on_tests fx v diff) e ∙ ap (λ b. ((if b then clean v diff else dirty v t), w)) both,
      )

  round-Passes :
      (instruction : String) (plan : Plan) (base : String) (w : W)
      → Passes (round fx instruction plan base w)
  unfolding round on_review
  round-Passes instruction plan base w =
      let wd = fx.commit_range_diff base w in
      let (v, w1, e, agreed) = ok.reviews instruction plan wd.diff w in
      let (v', diff, w2, same) =
        on_tests-Passes v wd.diff (fx.exec_tests w1) agreed (ok.tests w1) in
      (
        v',
        diff,
        w2,
        ap
              (λ b.
                if b
                then on_review fx wd.diff (fx.run_review instruction plan wd.diff w)
                else (blinded, w))
              (ok.complete base w)
            ∙ ap (on_review fx wd.diff) e
            ∙ same,
      )

  fix_loop-passes :
      (left attempt : ℕ) (instruction : String) (plan : Plan) (base : String) (w : W)
      → (v : Review) × (diff : String) × (w' : W) × (fix_loop fx left attempt instruction plan base
            w
          ≡ (passed v diff, w'))
  unfolding fix_loop exhausted on_round
  fix_loop-passes zero attempt instruction plan base w =
      let (v, diff, w', e) = round-Passes instruction plan base w in
      (v, diff, w', ap (exhausted fx) e)
  fix_loop-passes (suc left) attempt instruction plan base w =
      let (v, diff, w', e) = round-Passes instruction plan base w in
      (
        v,
        diff,
        w',
        ap
            (on_round fx instruction plan (suc attempt)
              (fix_loop fx left (suc attempt) instruction plan base))
            e,
      )

  on_implement-shipped :
      (max : ℕ) (instruction : String) (plan : Plan) (base : String) (r : Attempt (Unit {0}) × W)
      → Gives (λ _. true) r
      → is_shipped (on_implement fx max instruction plan base r).0 ≡ true
  unfolding on_implement on_loop
  on_implement-shipped max instruction plan base r (a, w, e, _) =
      let (v, diff, w', passes) = fix_loop-passes max 0 instruction plan base w in
      subst (λ r. is_shipped (on_implement fx max instruction plan base r).0 ≡ true) (sym e)
        (subst (λ l. is_shipped (on_loop fx plan l).0 ≡ true) (sym passes)
          (on_publish_gate-shipped plan v diff (fx.approve_publish _ w') (ok.ships _ w')))

  on_plan_gate-shipped :
      (max : ℕ) (instruction base : String) (plan : Plan) (r : Attempt Bool × W)
      → Gives (λ b. b) r
      → is_shipped
          (on_plan_gate fx max
            (record { instruction = instruction; plan = some plan; base_sha = some base })
            plan
            r).0
        ≡ true
  unfolding on_plan_gate on_base
  on_plan_gate-shipped max instruction base plan r (false, w, e, agreed) = cc
  on_plan_gate-shipped max instruction base plan r (true, w, e, agreed) =
      subst
        (λ r.
          is_shipped
            (on_plan_gate fx max
              (record { instruction = instruction; plan = some plan; base_sha = some base }) plan
              r).0
          ≡ true)
        (sym e)
        (on_implement-shipped max instruction plan base (fx.exec_implement instruction plan w)
          (ok.implements instruction plan w))

  pub run_orchestrator-shipped :
      (max : ℕ) (instruction base : String) (plan : Plan) (w : W)
      → plan.ready_to_implement ≡ true
      → is_shipped
          (run_orchestrator fx max
            (record { instruction = instruction; plan = some plan; base_sha = some base })
            w).0
        ≡ true
  unfolding run_orchestrator on_plan
  run_orchestrator-shipped max instruction base plan w ready =
      let opts : OrchestratorOptions = record {
        instruction = instruction;
        plan = some plan;
        base_sha = some base;
      } in
      subst
        (λ b.
          is_shipped
            (if b
              then on_plan_gate fx max opts plan (fx.approve_plan plan w)
              else (finished not_ready, w)).0
          ≡ true)
        (sym ready)
        (on_plan_gate-shipped max instruction base plan (fx.approve_plan plan w)
          (ok.approves plan w))
