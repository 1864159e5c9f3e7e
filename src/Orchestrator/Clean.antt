-- ===== src/Orchestrator/Clean.antt =====
-- How the fix loop of harness/src/orchestrator.ts ends, and what a publish rests on.
use muti_repo_workspace.Contracts.{Plan, Review, is_approve}
use muti_repo_workspace.Prelude.{
  ℕ, zero, suc, ◌+◌, ◌≤◌, ◌<◌, ◌⊎◌, inl, inr, String, Bool, true, false, ◌≡◌, refl, ap, subst,
  arith, if◌then◌else◌,
}
use muti_repo_workspace.Spine.Effects.{Attempt, returned, threw, TestResult, RangeDiff}
use muti_repo_workspace.Orchestrator.{
  Pipeline, failed, not_clean, incomplete_diff, finished, rejected, Round, clean, dirty, blinded,
  raises, Looped, passed, stopped, fix_prompt, round, on_review, on_tests, judge,
}
use muti_repo_workspace.Orchestrator.FixLoop.{exhausted, on_fix, on_round, fix_loop}

judge-clean :
    (v : Review) (d : String) (t : TestResult) (v' : Review) (d' : String)
    → judge v d t ≡ clean v' d'
    → (v ≡ v') × (d ≡ d') × (is_approve v.verdict ≡ true) × (t.pass ≡ true)
judge-clean v d t v' d' out = ground arith

module _ {W : Type 0} (fx : Pipeline W) (instruction : String) (plan : Plan) (base : String) where
  -- A round on `w`: the complete diff `d`, an approving review `v` of it and passing tests.
  abbrev pub IsClean : W → Review → String → W → Type 0
  IsClean w v d w' =
      (w1 : W) × (t : TestResult) × (fx.commit_range_diff base w
        ≡ record { diff = d; complete = true })
      × (fx.run_review instruction plan d w ≡ (returned v, w1))
      × (fx.exec_tests w1 ≡ (returned t, w'))
      × (is_approve v.verdict ≡ true)
      × (t.pass ≡ true)

  on_tests-clean :
      (v : Review) (d : String) (x : Attempt TestResult × W) (v' : Review) (d' : String) (w' : W)
      → on_tests fx v d x ≡ (clean v' d', w')
      → (t : TestResult) × (v ≡ v')
        × (d ≡ d')
        × (x ≡ (returned t, w'))
        × (is_approve v.verdict ≡ true)
        × (t.pass ≡ true)
  unfolding on_tests
  on_tests-clean v d (threw message, w) v' d' w' out = cc
  on_tests-clean v d (returned t, w) v' d' w' out =
      let (same, shown, approving, green) = judge-clean v d t v' d' (ap (λ x. x.0) out) in
      (t, same, shown, ap (λ u. (returned t, u)) (ap (λ x. x.1) out), approving, green)

  on_review-clean :
      (d : String) (x : Attempt Review × W) (v' : Review) (d' : String) (w' : W)
      → on_review fx d x ≡ (clean v' d', w')
      → (w1 : W) × (t : TestResult) × (d ≡ d')
        × (x ≡ (returned v', w1))
        × (fx.exec_tests w1 ≡ (returned t, w'))
        × (is_approve v'.verdict ≡ true)
        × (t.pass ≡ true)
  unfolding on_review
  on_review-clean d (threw message, w) v' d' w' out = cc
  on_review-clean d (returned v, w) v' d' w' out =
      let (t, same, shown, tested, approving, green) =
        on_tests-clean v d (fx.exec_tests w) v' d' w' out in
      (
        w,
        t,
        shown,
        ap (λ u. (returned u, w)) same,
        tested,
        subst (λ u. is_approve u.verdict ≡ true) same approving,
        green,
      )

  judged : RangeDiff → W → Round × W
  judged wd w =
      if wd.complete
      then on_review fx wd.diff (fx.run_review instruction plan wd.diff w)
      else (blinded, w)

  judged-clean :
      (c : Bool) (d : String) (w : W) (v' : Review) (d' : String) (w' : W)
      → judged (record { diff = d; complete = c }) w ≡ (clean v' d', w')
      → (c ≡ true)
        × (d ≡ d')
        × ((w1 : W) × (t : TestResult) × (fx.run_review instruction plan d w ≡ (returned v', w1))
            × (fx.exec_tests w1 ≡ (returned t, w'))
            × (is_approve v'.verdict ≡ true)
            × (t.pass ≡ true))
  unfolding judged
  judged-clean false d w v' d' w' out = cc
  judged-clean true d w v' d' w' out =
      let (w1, t, shown, reviewed, tested, approving, green) =
        on_review-clean d (fx.run_review instruction plan d w) v' d' w' out in
      (refl, shown, (w1, t, reviewed, tested, approving, green))

  round-IsClean :
      (w : W) (v : Review) (d : String) (w' : W)
      → round fx instruction plan base w ≡ (clean v d, w')
      → IsClean w v d w'
  unfolding round judged
  round-IsClean w v d w' out =
      let wd = fx.commit_range_diff base w in
      let (complete, shown, (w1, t, reviewed, tested, approving, green)) =
        judged-clean wd.complete wd.diff w v d w' out in
      (
        w1,
        t,
        (λ i. record { diff = shown i; complete = complete i }),
        subst (λ u. fx.run_review instruction plan u w ≡ (returned v, w1)) shown reviewed,
        tested,
        approving,
        green,
      )

  -- After so many fixes, each of a round that was not clean, the loop is at this state.
  pub data Reached : ℕ → W → W → Type 0 where
    start : (w : W) → Reached zero w w
    fixed :
        {k : ℕ} {w w' w1 w2 : W} {v : Review} {t : TestResult}
        → Reached k w w'
        → round fx instruction plan base w' ≡ (dirty v t, w1)
        → fx.exec_fix instruction (fix_prompt plan v t) (suc k) w1 ≡ (returned tt, w2)
        → Reached (suc k) w w2

  -- What threw after `k` fixes: the review or the tests of a round, or the fix that followed it.
  abbrev pub Threw : ℕ → ℕ → W → String → W → Type 0
  Threw max k w message w' =
      (round fx instruction plan base w ≡ (raises message, w'))
      ⊎ ((v : Review) × (t : TestResult) × (w1 : W) × (k < max)
          × (round fx instruction plan base w ≡ (dirty v t, w1))
          × (fx.exec_fix instruction (fix_prompt plan v t) (suc k) w1 ≡ (threw message, w')))

  -- The rounds and fixes by which the loop comes to its end; no other end than these is possible.
  abbrev pub Ends : ℕ → W → Looped × W → Type 0
  Ends max w (passed v d, w') = (k : ℕ) × (w1 : W) × Reached k w w1 × (k ≤ max) × IsClean w1 v d w'
  Ends max w (stopped (finished (failed not_clean)), w') =
      (w1 : W) × (v : Review) × (t : TestResult) × Reached max w w1
      × (round fx instruction plan base w1 ≡ (dirty v t, w'))
  Ends max w (stopped (finished (failed incomplete_diff)), w') =
      (k : ℕ) × (w1 : W) × Reached k w w1
      × (k ≤ max)
      × ((fx.commit_range_diff base w1).complete ≡ false)
      × (w1 ≡ w')
  Ends max w (stopped (rejected message), w') =
      (k : ℕ) × (w1 : W) × Reached k w w1 × (k ≤ max) × Threw max k w1 message w'
  Ends max w (stopped _, w') = true ≡ false

  judged-blinded :
      (c : Bool) (d : String) (w w' : W)
      → judged (record { diff = d; complete = c }) w ≡ (blinded, w')
      → (c ≡ false) × (w ≡ w')
  unfolding judged on_review on_tests
  judged-blinded false d w w' out = (refl, ground arith)
  judged-blinded true d w w' out = go (fx.run_review instruction plan d w) out
    where
      tests :
          (v : Review) (x : Attempt TestResult × W)
          → on_tests fx v d x ≡ (blinded, w')
          → (true ≡ false) × (w ≡ w')
      tests v (threw message, u) out = cc
      tests v (returned t, u) out = ground arith

      go : (x : Attempt Review × W) → on_review fx d x ≡ (blinded, w') → (true ≡ false) × (w ≡ w')
      go (threw message, u) out = cc
      go (returned v, u) out = tests v (fx.exec_tests u) out

  round-blinded :
      (w w' : W)
      → round fx instruction plan base w ≡ (blinded, w')
      → ((fx.commit_range_diff base w).complete ≡ false) × (w ≡ w')
  unfolding round judged
  round-blinded w w' out =
      let wd = fx.commit_range_diff base w in judged-blinded wd.complete wd.diff w w' out

  exhausted-Ends :
      (k : ℕ) (w0 w : W) (x : Round × W)
      → Reached k w0 w
      → round fx instruction plan base w ≡ x
      → Ends k w0 (exhausted fx x)
  unfolding exhausted
  exhausted-Ends k w0 w (clean v d, w') reached out =
      (k, w, reached, omega arith, round-IsClean w v d w' out)
  exhausted-Ends k w0 w (dirty v t, w') reached out = (w, v, t, reached, out)
  exhausted-Ends k w0 w (blinded, w') reached out =
      let (cut, same) = round-blinded w w' out in (k, w, reached, omega arith, cut, same)
  exhausted-Ends k w0 w (raises message, w') reached out = (k, w, reached, omega arith, inl out)

  on_fix-Ends :
      (max k : ℕ) (w0 w w1 : W) (v : Review) (t : TestResult) (rest : W → Looped × W)
      (x : Attempt (Unit {0}) × W)
      → Reached k w0 w
      → k < max
      → round fx instruction plan base w ≡ (dirty v t, w1)
      → fx.exec_fix instruction (fix_prompt plan v t) (suc k) w1 ≡ x
      → ((w2 : W) → Reached (suc k) w0 w2 → Ends max w0 (rest w2))
      → Ends max w0 (on_fix fx rest x)
  unfolding on_fix
  on_fix-Ends max k w0 w w1 v t rest (threw message, w2) reached few out ran later =
      (k, w, reached, omega arith, inr (v, t, w1, few, out, ran))
  on_fix-Ends max k w0 w w1 v t rest (returned u, w2) reached few out ran later =
      later w2 (Reached.fixed reached out ran)

  on_round-Ends :
      (max k : ℕ) (w0 w : W) (rest : W → Looped × W) (x : Round × W)
      → Reached k w0 w
      → k < max
      → round fx instruction plan base w ≡ x
      → ((w2 : W) → Reached (suc k) w0 w2 → Ends max w0 (rest w2))
      → Ends max w0 (on_round fx instruction plan (suc k) rest x)
  unfolding on_round
  on_round-Ends max k w0 w rest (clean v d, w') reached few out later =
      (k, w, reached, omega arith, round-IsClean w v d w' out)
  on_round-Ends max k w0 w rest (dirty v t, w') reached few out later =
      on_fix-Ends max k w0 w w' v t rest _ reached few out refl later
  on_round-Ends max k w0 w rest (blinded, w') reached few out later =
      let (cut, same) = round-blinded w w' out in (k, w, reached, omega arith, cut, same)
  on_round-Ends max k w0 w rest (raises message, w') reached few out later =
      (k, w, reached, omega arith, inl out)

  Reached-Ends :
      (left k max : ℕ) (w0 w : W)
      → left + k ≡ max
      → Reached k w0 w
      → Ends max w0 (fix_loop fx left k instruction plan base w)
  unfolding fix_loop
  Reached-Ends zero k max w0 w total reached =
      let same : k ≡ max = omega arith in
      subst (λ m. Ends m w0 (exhausted fx (round fx instruction plan base w))) same
        (exhausted-Ends k w0 w _ reached refl)
  Reached-Ends (suc left) k max w0 w total reached =
      on_round-Ends max k w0 w _ _ reached (omega arith) refl
        λ w2 reached'. Reached-Ends left (suc k) max w0 w2 (omega arith) reached'

  -- However the loop ends, from the state after IMPLEMENT: when it passes with a review and a
  -- diff, some number of fixes at most `max` has run, each after a round that was not clean, and the
  -- last round saw that diff complete, got that review, which approves, and then a passing test run;
  -- when it fails as not clean, exactly `max` fixes have run and the round after them was not clean;
  -- when it fails as incomplete, at most `max` fixes have run and the diff after them was incomplete;
  -- when an exception ends it, at most `max` fixes have run and the review or the tests of the round
  -- after them threw, or fewer than `max` have run and the fix after that round threw; and it ends
  -- in no other way.
  pub fix_loop-Ends : (max : ℕ) (w : W) → Ends max w (fix_loop fx max 0 instruction plan base w)
  fix_loop-Ends max w = Reached-Ends max 0 max w w (omega arith) (Reached.start w)
