-- ===== src/Spine/Executor/Evidence.antt =====
-- Which record of harness/src/spine/ledger.ts a dispatch of executor.ts makes, and what the outside
-- answered for it.
use muti_repo_workspace.Prelude.{
  ◌+◌, String, true, Option, some, ◌≡◌, refl, ◌⊎◌, inl, inr, arith, Bool-cases, Option-cases,
}
use muti_repo_workspace.Spine.Ledger.{SpineLedger, RepoLedgerEntry, get_repo, or_default}
use muti_repo_workspace.Spine.Ledger.Trace.{
  LedgerOp, worker_ran, tests_ran, reviewed, plan_made, was_published, apply,
}
use muti_repo_workspace.Spine.Actions.{
  SpineAction, run_tests, review_diff, ErrorText, declined_publish, declined_at_caveat,
}
use muti_repo_workspace.Spine.Effects.{
  Effects, Attempt, returned, threw, TestResult, pushed, stub, confirm_publish, acknowledge_tests,
}
use muti_repo_workspace.Spine.Executor.State.{
  ExecutorDeps, Executor, Outcome, minimal_plan, next_worker_run_seq, is_yes,
}
use muti_repo_workspace.Spine.Executor.Steps.{implement, work, test, review, judge, make_plan, ask}
use muti_repo_workspace.Spine.Executor.Publish.{
  send, confirm, approve_in_chat, publish_gated, ask_publish, on_answer, shown_review,
}
use muti_repo_workspace.Spine.Executor.Rights.{work-cases}

Attempt-cases {ℓ} :
    {A : Type ℓ} (t : Attempt A) → ((a : A) × (t ≡ returned a)) ⊎ ((m : String) × (t ≡ threw m))
Attempt-cases (returned a) = inl (a, refl)
Attempt-cases (threw m) = inr (m, refl)

abbrev pub ForTests : SpineAction → (String → Type 0) → Type 0
ForTests (run_tests repo) P = P repo
ForTests _ P = ⊥

abbrev pub ForReview : SpineAction → (String → Type 0) → Type 0
ForReview (review_diff repo) P = P repo
ForReview _ P = ⊥

module _ {W : Type 0} (fx : Effects W) (deps : ExecutorDeps) where
  -- The answers of the outside for which the record is made: a test run of the repo with that
  -- result, or a review of its complete diff with that result, and then its HEAD.
  abbrev pub Explains : SpineAction → Executor W → LedgerOp → Type 0
  Explains a s (tests_ran repo pass sha) = ForTests a (λ r.
      (repo ≡ r)
      × (e : RepoLedgerEntry) × (get_repo r s.ledger ≡ some e)
      × (t : TestResult) × ((fx.exec_tests e.repo_dir s.world).0 ≡ returned t)
      × (t.pass ≡ pass)
      × (fx.rev_parse_head e.repo_dir (fx.exec_tests e.repo_dir s.world).1 ≡ returned sha))
  Explains a s (reviewed repo v sha) = ForReview a (λ r.
      (repo ≡ r)
      × (e : RepoLedgerEntry) × (get_repo r s.ledger ≡ some e)
      × (let wd = fx.commit_range_diff e.repo_dir e.base_sha s.world in
          let answer =
            fx.run_review deps.instruction (or_default e.plan (minimal_plan r)) wd.diff e.repo_dir
              s.world in
          (wd.complete ≡ true)
          × (answer.0 ≡ returned v)
          × (fx.rev_parse_head e.repo_dir answer.1 ≡ returned sha)))
  Explains a s _ = Unit

  -- The ledger's entries stay, or change by one record that the outside's answers explain.
  abbrev pub Records : SpineAction → Executor W → Executor W → Type 0
  Records a s s' =
      (s'.ledger.repos ≡ s.ledger.repos)
      ⊎ ((o : LedgerOp) × (s'.ledger.repos ≡ (apply o s.ledger).repos) × Explains a s o)

  pub test-Records :
      (repo : String) (e : RepoLedgerEntry) (s : Executor W)
      → get_repo repo s.ledger ≡ some e
      → Records (run_tests repo) s (test fx deps repo e s).1
  unfolding test apply
  test-Records repo e s found = elim (Attempt-cases (fx.exec_tests e.repo_dir s.world).0) [
    | inr (m, failed) ↦ inl (rw (failed, test))
    | inl (t, ran) ↦
        elim (Attempt-cases (fx.rev_parse_head e.repo_dir (fx.exec_tests e.repo_dir s.world).1)) [
          | inr (m, failed) ↦ inl (rw (ran, failed, test))
          | inl (sha, headed) ↦ inr (
            tests_ran repo t.pass sha,
            rw (ran, headed, test),
            (refl, e, found, t, ran, refl, headed),
          )
        ]
  ]

  judge-Records :
      (repo : String) (e : RepoLedgerEntry) (s : Executor W)
      → get_repo repo s.ledger ≡ some e
      → (fx.commit_range_diff e.repo_dir e.base_sha s.world).complete ≡ true
      → Records
          (review_diff repo)
          s
          (judge fx deps repo (fx.commit_range_diff e.repo_dir e.base_sha s.world).diff e s).1
  unfolding judge apply
  judge-Records repo e s found whole =
      let d = (fx.commit_range_diff e.repo_dir e.base_sha s.world).diff in
      let answer =
        fx.run_review deps.instruction (or_default e.plan (minimal_plan repo)) d e.repo_dir
          s.world in
      elim (Attempt-cases answer.0) [
        | inr (m, failed) ↦ inl (rw (failed, judge))
        | inl (v, ran) ↦ elim (Attempt-cases (fx.rev_parse_head e.repo_dir answer.1)) [
          | inr (m, failed) ↦ inl (rw (ran, failed, judge))
          | inl (sha, headed) ↦
              inr (
                reviewed repo v sha,
                rw (ran, headed, judge),
                (refl, e, found, (whole, ran, headed)),
              )
        ]
      ]

  pub review-Records :
      (repo : String) (e : RepoLedgerEntry) (s : Executor W)
      → get_repo repo s.ledger ≡ some e
      → Records (review_diff repo) s (review fx deps repo e s).1
  unfolding review
  review-Records repo e s found =
      elim (Bool-cases (fx.commit_range_diff e.repo_dir e.base_sha s.world).complete) [
        | inr cut ↦ inl (rw (cut, review))
        | inl whole ↦
            let same : review fx deps repo e s
                ≡ judge fx deps repo (fx.commit_range_diff e.repo_dir e.base_sha s.world).diff e s =
              rw (whole, review) in
            rw same (judge-Records repo e s found whole)
      ]

  -- The worker run counts against its budget before the record is made.
  implement-Records :
      (a : SpineAction) (repo i : String) (e : RepoLedgerEntry) (s : Executor W)
      → let l : SpineLedger = record s.ledger {
        worker_runs_used = s.ledger.worker_runs_used + 1;
      } in
        Records a s (implement fx deps repo i e (record s { ledger = l })).1
  unfolding implement apply
  implement-Records a repo i e s =
      elim (Attempt-cases
        (fx.exec_implement e.repo_dir (record { plan = e.plan; instruction = i }) repo
          (next_worker_run_seq repo s).1 s.world).0) [
            | inr (m, failed) ↦ inl (rw (failed, implement))
            | inl (c, ran) ↦ inr (worker_ran repo c.committed c.head_sha, rw (ran, implement), tt)
          ]

  pub work-Records :
      (a : SpineAction) (repo i : String) (e : RepoLedgerEntry) (s : Executor W)
      → Records a s (work fx deps repo i e s).1
  work-Records a repo i e s = elim (work-cases fx deps repo i e s) [
    | inl (_, _, kept) ↦ inl kept
    | inr (_, same) ↦ rw same (implement-Records a repo i e s)
  ]

  pub make_plan-Records :
      (a : SpineAction) (repo : String) (e : RepoLedgerEntry) (s : Executor W)
      → Records a s (make_plan fx deps repo e s).1
  unfolding make_plan apply
  make_plan-Records a repo e s =
      elim (Attempt-cases (fx.run_plan deps.instruction e.repo_dir s.world).0) [
        | inr (m, failed) ↦ inl (rw (failed, make_plan))
        | inl (p, ran) ↦ inr (plan_made repo p, rw (ran, make_plan), tt)
      ]

  pub ask-Records :
      (a : SpineAction) (q : String) (s : Executor W) → Records a s (ask fx deps q s).1
  unfolding ask
  ask-Records a q s = inl (ground arith)

  -- The entries stay, or a publish is recorded.
  abbrev pub MayPublish : Executor W → Executor W → Type 0
  MayPublish s s' =
      (s'.ledger.repos ≡ s.ledger.repos)
      ⊎ ((repo : String) × (sha : String) × (url : Option String) × (s'.ledger.repos
            ≡ (apply (was_published repo sha url) s.ledger).repos))

  pub MayPublish-Records : (a : SpineAction) (s s' : Executor W) → MayPublish s s' → Records a s s'
  MayPublish-Records a s s' (inl kept) = inl kept
  MayPublish-Records a s s' (inr (repo, sha, url, sent)) =
      inr (was_published repo sha url, sent, tt)

  send-MayPublish :
      (repo d : String) (e : RepoLedgerEntry) (s : Executor W)
      → MayPublish s (send fx deps repo d e s).1
  unfolding send apply
  send-MayPublish repo d e s = elim (Option-cases e.review_approved) [
    | inl missing ↦ inl (ground arith)
    | inr (v, there) ↦
        elim (Attempt-cases
          (fx.publish (record { plan = e.plan; review = some v.review; diff = d }) e.repo_dir
            s.world).0) [
              | inr (m, failed) ↦ inl (ground arith)
              | inl (pushed sha url, ran) ↦ inr (repo, sha, url, ground arith)
              | inl (stub, ran) ↦ inl (ground arith)
            ]
  ]

  on_answer-MayPublish :
      (text : ErrorText) (k : Executor W → Outcome × Executor W) (a : Attempt String)
      (s : Executor W)
      → MayPublish s (k s).1
      → MayPublish s (on_answer fx deps text k a s).1
  on_answer-MayPublish text k (threw m) s h = inl refl
  on_answer-MayPublish text k (returned a) s h = elim (Bool-cases (is_yes a)) [
    | inl agrees ↦ rw agrees h
    | inr refuses ↦ inl (rw refuses)
  ]

  confirm-MayPublish :
      (repo d : String) (e : RepoLedgerEntry) (s : Executor W)
      → MayPublish s (confirm fx deps repo d e s).1
  unfolding confirm
  confirm-MayPublish repo d e s =
      let (result, w) = fx.ask_human confirm_publish s.world in
      let s' : Executor W = record s { world = w } in
      on_answer-MayPublish declined_publish (send fx deps repo d e) result s'
        (send-MayPublish repo d e s')

  approve_in_chat-MayPublish :
      (repo d : String) (e : RepoLedgerEntry) (s : Executor W)
      → MayPublish s (approve_in_chat fx deps repo d e s).1
  unfolding approve_in_chat
  approve_in_chat-MayPublish repo d e s =
      let w = fx.show_for_approval e.plan (shown_review fx deps e.review_approved) d s.world in
      let s' : Executor W = record s { world = w } in
      elim (Bool-cases (fx.diff_touches_tests d)) [
        | inr untouched ↦ rw untouched (confirm-MayPublish repo d e s')
        | inl touched ↦
            let (result, w') = fx.ask_human acknowledge_tests w in
            let s'' : Executor W = record s { world = w' } in
            rw touched (
              on_answer-MayPublish declined_at_caveat (confirm fx deps repo d e) result s''
                (confirm-MayPublish repo d e s''))
      ]

  pub ask_publish-MayPublish :
      (repo : String) (e : RepoLedgerEntry) (s : Executor W)
      → MayPublish s (ask_publish fx deps repo e s).1
  unfolding ask_publish publish_gated
  ask_publish-MayPublish repo e s =
      let wd = fx.commit_range_diff e.repo_dir e.base_sha s.world in
      ground (arith, approve_in_chat-MayPublish repo wd.diff e s, send-MayPublish repo wd.diff e s)
