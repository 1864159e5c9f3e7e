-- ===== src/Orchestrator/Published.antt =====
-- What a publish of harness/src/orchestrator.ts rests on.
use muti_repo_workspace.Contracts.{Plan, Review}
use muti_repo_workspace.Prelude.{
  ℕ, zero, suc, ◌≤◌, String, Bool, true, false, ◌≡◌, refl, arith, if◌then◌else◌,
}
use muti_repo_workspace.Spine.Effects.{Attempt, returned, threw}
use muti_repo_workspace.Orchestrator.{
  Pipeline, OrchestratorOptions, OrchestratorResult, published, published_stub, not_ready, Round,
  clean, dirty, blinded, raises, finished, Looped, passed, stopped, failed, publish_threw,
  publishes,
}
use muti_repo_workspace.Orchestrator.FixLoop.{
  fix_loop, on_publish_gate, on_loop, on_implement, on_base, on_plan_gate, on_plan, planned,
  run_orchestrator, base_of, publish_info, publish_context, exhausted, on_round, on_fix,
}
use muti_repo_workspace.Orchestrator.Clean.{Ends, IsClean, Reached, fix_loop-Ends}

-- The answers after `publish` was called.
abbrev pub is_sent : OrchestratorResult → Bool
is_sent (published sha url) = true
is_sent published_stub = true
is_sent (failed (publish_threw message)) = true
is_sent _ = false

module _ {W : Type 0} (fx : Pipeline W) where
  -- The human said yes to this review and diff of this plan, and they were handed to `publish`.
  abbrev pub IsSent : Plan → Review → String → W → OrchestratorResult → Type 0
  IsSent plan v d w r =
      (w1 : W) × (fx.approve_publish (publish_info fx plan v d) w ≡ (returned true, w1))
      × ((publishes fx (fx.publish (publish_context fx plan v d) w1)).0 ≡ finished r)

  -- A clean round after at most `max` fixes, and the human's yes to what it judged.
  abbrev pub IsEarned : ℕ → String → Plan → String → W → OrchestratorResult → Type 0
  IsEarned max instruction plan base w r =
      (k : ℕ) × (w1 : W) × (w2 : W) × (v : Review) × (d : String) × (k ≤ max)
      × Reached fx instruction plan base k w w1
      × IsClean fx instruction plan base w1 v d w2
      × IsSent plan v d w2 r

  on_publish_gate-IsSent :
      (plan : Plan) (v : Review) (d : String) (w : W) (x : Attempt Bool × W)
      (r : OrchestratorResult)
      → fx.approve_publish (publish_info fx plan v d) w ≡ x
      → (on_publish_gate fx plan v d x).0 ≡ finished r
      → is_sent r ≡ true
      → IsSent plan v d w r
  unfolding on_publish_gate
  on_publish_gate-IsSent plan v d w (threw message, w') r asked out sent = ground arith
  on_publish_gate-IsSent plan v d w (returned false, w') r asked out sent = ground arith
  on_publish_gate-IsSent plan v d w (returned true, w') r asked out sent = (w', asked, out)

  -- The loop stops only with answers that are given before the publish gate.
  abbrev Unsent : Looped × W → Type 0
  Unsent (passed v d, w) = Unit
  Unsent (stopped out, w) = (r : OrchestratorResult) → out ≡ finished r → is_sent r ≡ false

  on_loop-IsEarned :
      (max : ℕ) (instruction : String) (plan : Plan) (base : String) (w : W) (x : Looped × W)
      (r : OrchestratorResult)
      → Ends fx instruction plan base max w x
      → Unsent x
      → (on_loop fx plan x).0 ≡ finished r
      → is_sent r ≡ true
      → IsEarned max instruction plan base w r
  unfolding on_loop
  on_loop-IsEarned max instruction plan base w (stopped out, w') r ends unsent answered sent =
      let quiet = unsent r answered in ground arith
  on_loop-IsEarned max instruction plan base w (passed v d, w') r ends unsent answered sent =
      let (k, w1, reached, few, cleaned) = ends in
      (
        k,
        w1,
        w',
        v,
        d,
        few,
        reached,
        cleaned,
        on_publish_gate-IsSent plan v d w' _ r refl answered sent,
      )

  exhausted-Unsent : (x : Round × W) → Unsent (exhausted fx x)
  unfolding exhausted
  exhausted-Unsent (clean v d, w) = tt
  exhausted-Unsent (dirty v t, w) = λ r out. ground arith
  exhausted-Unsent (blinded, w) = λ r out. ground arith
  exhausted-Unsent (raises message, w) = λ r out. cc

  on_fix-Unsent :
      (rest : W → Looped × W) (x : Attempt (Unit {0}) × W)
      → ((w : W) → Unsent (rest w))
      → Unsent (on_fix fx rest x)
  unfolding on_fix
  on_fix-Unsent rest (threw message, w) later = λ r out. cc
  on_fix-Unsent rest (returned u, w) later = later w

  on_round-Unsent :
      (instruction : String) (plan : Plan) (n : ℕ) (rest : W → Looped × W) (x : Round × W)
      → ((w : W) → Unsent (rest w))
      → Unsent (on_round fx instruction plan n rest x)
  unfolding on_round
  on_round-Unsent instruction plan n rest (clean v d, w) later = tt
  on_round-Unsent instruction plan n rest (dirty v t, w) later = on_fix-Unsent rest _ later
  on_round-Unsent instruction plan n rest (blinded, w) later = λ r out. ground arith
  on_round-Unsent instruction plan n rest (raises message, w) later = λ r out. cc

  fix_loop-Unsent :
      (left k : ℕ) (instruction : String) (plan : Plan) (base : String) (w : W)
      → Unsent (fix_loop fx left k instruction plan base w)
  unfolding fix_loop
  fix_loop-Unsent zero k instruction plan base w = exhausted-Unsent _
  fix_loop-Unsent (suc left) k instruction plan base w =
      on_round-Unsent instruction plan (suc k) _ _
        λ w2. fix_loop-Unsent left (suc k) instruction plan base w2

  -- The steps from the plan gate to IMPLEMENT have gone well, and what follows has earned a publish.
  abbrev pub IsImplemented : ℕ → OrchestratorOptions → Plan → W → OrchestratorResult → Type 0
  IsImplemented max opts plan w r =
      (base : String) × (w' : W) × (base_of fx opts.base_sha w ≡ returned base)
      × (fx.exec_implement opts.instruction plan w ≡ (returned tt, w'))
      × IsEarned max opts.instruction plan base w' r

  on_implement-IsEarned :
      (max : ℕ) (instruction : String) (plan : Plan) (base : String) (x : Attempt (Unit {0}) × W)
      (r : OrchestratorResult)
      → (on_implement fx max instruction plan base x).0 ≡ finished r
      → is_sent r ≡ true
      → (w' : W) × (x ≡ (returned tt, w')) × IsEarned max instruction plan base w' r
  unfolding on_implement
  on_implement-IsEarned max instruction plan base (threw message, w) r out sent = cc
  on_implement-IsEarned max instruction plan base (returned u, w) r out sent = (
    w,
    refl,
    on_loop-IsEarned max instruction plan base w _ r (fix_loop-Ends fx instruction plan base max w)
        (fix_loop-Unsent max 0 instruction plan base w) out sent,
  )

  on_base-IsImplemented :
      (max : ℕ) (opts : OrchestratorOptions) (plan : Plan) (w : W) (x : Attempt String)
      (r : OrchestratorResult)
      → base_of fx opts.base_sha w ≡ x
      → (on_base fx max opts.instruction plan w x).0 ≡ finished r
      → is_sent r ≡ true
      → IsImplemented max opts plan w r
  unfolding on_base
  on_base-IsImplemented max opts plan w (threw message) r based out sent = cc
  on_base-IsImplemented max opts plan w (returned base) r based out sent =
      let (w', ran, earned) = on_implement-IsEarned max opts.instruction plan base _ r out sent in
      (base, w', based, ran, earned)

  on_plan_gate-IsImplemented :
      (max : ℕ) (opts : OrchestratorOptions) (plan : Plan) (x : Attempt Bool × W)
      (r : OrchestratorResult)
      → (on_plan_gate fx max opts plan x).0 ≡ finished r
      → is_sent r ≡ true
      → (w' : W) × (x ≡ (returned true, w')) × IsImplemented max opts plan w' r
  unfolding on_plan_gate
  on_plan_gate-IsImplemented max opts plan (threw message, w) r out sent = cc
  on_plan_gate-IsImplemented max opts plan (returned false, w) r out sent = ground arith
  on_plan_gate-IsImplemented max opts plan (returned true, w) r out sent =
      (w, refl, on_base-IsImplemented max opts plan w _ r refl out sent)

  -- The plan is ready and a human has approved it.
  abbrev pub IsPlanned : ℕ → OrchestratorOptions → Plan → W → OrchestratorResult → Type 0
  IsPlanned max opts plan w r =
      (w' : W) × (plan.ready_to_implement ≡ true)
      × (fx.approve_plan plan w ≡ (returned true, w'))
      × IsImplemented max opts plan w' r

  on_ready-IsPlanned :
      (max : ℕ) (opts : OrchestratorOptions) (plan : Plan) (w : W) (ready : Bool)
      (r : OrchestratorResult)
      → plan.ready_to_implement ≡ ready
      → (if ready
          then on_plan_gate fx max opts plan (fx.approve_plan plan w)
          else (finished not_ready, w)).0
        ≡ finished r
      → is_sent r ≡ true
      → IsPlanned max opts plan w r
  on_ready-IsPlanned max opts plan w false r is_ready out sent = ground arith
  on_ready-IsPlanned max opts plan w true r is_ready out sent =
      let (w', agreed, implemented) = on_plan_gate-IsImplemented max opts plan _ r out sent in
      (w', is_ready, agreed, implemented)

  on_plan-IsPlanned :
      (max : ℕ) (opts : OrchestratorOptions) (x : Attempt Plan × W) (r : OrchestratorResult)
      → (on_plan fx max opts x).0 ≡ finished r
      → is_sent r ≡ true
      → (plan : Plan) × (w : W) × (x ≡ (returned plan, w)) × IsPlanned max opts plan w r
  unfolding on_plan
  on_plan-IsPlanned max opts (threw message, w) r out sent = cc
  on_plan-IsPlanned max opts (returned plan, w) r out sent =
      (plan, w, refl, on_ready-IsPlanned max opts plan w plan.ready_to_implement r refl out sent)

  -- When `runOrchestrator` answers that it published or completed as a stub, or that the publish
  -- failed, so whenever it called `publish`: it had a plan that is ready and that a human approved,
  -- IMPLEMENT had returned, after at most `max` fixes a round had seen the complete diff, an
  -- approving review of it and then passing tests, and a human had approved that review and diff,
  -- which are the ones that were handed to `publish`.
  pub run_orchestrator-IsPlanned :
      (max : ℕ) (opts : OrchestratorOptions) (w : W) (r : OrchestratorResult)
      → (run_orchestrator fx max opts w).0 ≡ finished r
      → is_sent r ≡ true
      → (plan : Plan) × (w1 : W) × (planned fx opts w ≡ (returned plan, w1))
        × IsPlanned max opts plan w1 r
  unfolding run_orchestrator
  run_orchestrator-IsPlanned max opts w r out sent = on_plan-IsPlanned max opts _ r out sent
