-- ===== src/Spine/Executor/Rights.antt =====
-- What a dispatch of harness/src/spine/executor.ts may ask of the outside, for every action.
use muti_repo_workspace.Prelude.{
  ◌+◌, ◌<◌, String, true, some, List, [], ◌∷◌, All, ◌≡◌, refl, ◌⊎◌, inl, inr, arith, Bool-cases,
  Option-cases, ap, leb,
}
use muti_repo_workspace.Spine.Ledger.{
  SpineLedger, Reason, worker_runs_exhausted, RepoLedgerEntry, ok, refused, get_repo, can_publish,
  or_default, consume_worker_run,
}
use muti_repo_workspace.Spine.Ledger.Gate.{IsCleared, can_publish_iff}
use muti_repo_workspace.Spine.Actions.{
  SpineAction, run_worker, run_tests, review_diff, plan_repo, ask_human, show_human,
  request_publish, done, abort,
}
use muti_repo_workspace.Spine.Effects.{Effects, WorkerPrompt, asked}
use muti_repo_workspace.Spine.Executor.State.{
  ExecutorDeps, Executor, Outcome, in_chat, is_in_chat, require_repo, next_worker_run_seq,
  minimal_plan,
}
use muti_repo_workspace.Spine.Executor.Steps.{implement, work, test, review, judge, make_plan, ask}
use muti_repo_workspace.Spine.Executor.Publish.{ask_publish}
use muti_repo_workspace.Spine.Executor.Dispatch.{act}
use muti_repo_workspace.Spine.Executor.Budget.{
  implement-SameBudget, test-SameBudget, review-SameBudget, make_plan-SameBudget,
  ask_publish-SameBudget,
}
use muti_repo_workspace.Spine.Executor.Calls.{
  Call, implements, tests, plans, reviews, publishes, asks, says, Calls, implemented, tested,
  planned, reviewed, asked_of, said, AwaitsYes, is_confirm, is_acknowledge, worker_calls,
}
use muti_repo_workspace.Spine.Executor.Sending.{SendsEntry}
use muti_repo_workspace.Spine.Executor.Permits.{sends_tests, ask_publish-calls}

abbrev pub ForPublish : SpineAction → (String → Type 0) → Type 0
ForPublish (request_publish repo) P = P repo
ForPublish _ P = ⊥

abbrev pub ForWorker : SpineAction → (String → String → Type 0) → Type 0
ForWorker (run_worker repo instruction) P = P repo instruction
ForWorker _ P = ⊥

consume_worker_run-cases :
    (l : SpineLedger)
    → ((r : Reason) × (consume_worker_run l ≡ (l, refused r)))
      ⊎ ((l.worker_runs_used < l.max_worker_runs)
          × (consume_worker_run l ≡ (record l { worker_runs_used = l.worker_runs_used + 1 }, ok)))
unfolding consume_worker_run
consume_worker_run-cases l = elim (Bool-cases (leb l.max_worker_runs l.worker_runs_used)) [
  | inl spent ↦ inl (worker_runs_exhausted l.worker_runs_used l.max_worker_runs, rw spent)
  | inr left ↦ inr (ground arith, rw left)
]

module _ {W : Type 0} (fx : Effects W) (deps : ExecutorDeps) where
  -- A publish is asked for by `request_publish` alone, of a repo whose entry passes the ledger's
  -- gate and whose diff is complete; a worker run by `run_worker` alone, within its budget.
  abbrev pub Permits : SpineAction → Executor W → Call → Type 0
  Permits a s (publishes ctx dir) = ForPublish a (λ repo.
      (e : RepoLedgerEntry) × (get_repo repo s.ledger ≡ some e)
      × IsCleared e
      × ((fx.commit_range_diff e.repo_dir e.base_sha s.world).complete ≡ true)
      × SendsEntry e (fx.commit_range_diff e.repo_dir e.base_sha s.world).diff (publishes ctx dir))
  Permits a s (implements dir p repo n) = ForWorker a (λ name instruction.
      (e : RepoLedgerEntry) × (get_repo name s.ledger ≡ some e)
      × (dir ≡ e.repo_dir)
      × (p ≡ record { plan = e.plan; instruction = instruction })
      × (s.ledger.worker_runs_used < s.ledger.max_worker_runs))
  Permits a s _ = Unit

  -- The calls of an action: each permitted, and in the chat each publish after the human's yes.
  abbrev pub IsAllowed : SpineAction → Executor W → List Call → Type 0
  IsAllowed a s cs =
      All (Permits a s) cs
      × (is_in_chat (or_default deps.approval_policy in_chat) ≡ true
          → AwaitsYes is_confirm cs
            × (sends_tests fx.diff_touches_tests cs ≡ true → AwaitsYes is_acknowledge cs))

  abbrev pub Acts : SpineAction → Executor W → Executor W → Type 0
  Acts a s s' =
      (cs : List Call) × Calls fx s.world cs s'.world
      × IsAllowed a s cs
      × (worker_calls cs + s.ledger.worker_runs_used ≡ s'.ledger.worker_runs_used)

  test-world :
      (repo : String) (e : RepoLedgerEntry) (s : Executor W)
      → (test fx deps repo e s).1.world ≡ (fx.exec_tests e.repo_dir s.world).1
  unfolding test
  test-world repo e s = ground arith

  judge-world :
      (repo d : String) (e : RepoLedgerEntry) (s : Executor W)
      → (judge fx deps repo d e s).1.world
        ≡ (fx.run_review deps.instruction
            (or_default e.plan (minimal_plan repo))
            d
            e.repo_dir
            s.world).1
  unfolding judge
  judge-world repo d e s = ground arith

  make_plan-world :
      (repo : String) (e : RepoLedgerEntry) (s : Executor W)
      → (make_plan fx deps repo e s).1.world ≡ (fx.run_plan deps.instruction e.repo_dir s.world).1
  unfolding make_plan
  make_plan-world repo e s = ground arith

  ask-world :
      (q : String) (s : Executor W) → (ask fx deps q s).1.world ≡ (fx.ask_human (asked q) s.world).1
  unfolding ask
  ask-world q s = ground arith

  implement-world :
      (repo i : String) (e : RepoLedgerEntry) (s : Executor W)
      → (implement fx deps repo i e s).1.world
        ≡ (fx.exec_implement e.repo_dir
            (record { plan = e.plan; instruction = i })
            repo
            (next_worker_run_seq repo s).1
            s.world).1
  unfolding implement
  implement-world repo i e s = ground arith

  test-Acts :
      (repo : String) (e : RepoLedgerEntry) (s : Executor W)
      → Acts (run_tests repo) s (test fx deps repo e s).1
  test-Acts repo e s =
      let moved : (test fx deps repo e s).1.world ≡ (fx.exec_tests e.repo_dir s.world).1 =
        test-world repo e s in
      let b = test-SameBudget fx deps repo e s in
      rw moved (
        tests e.repo_dir ∷ [],
        tested e.repo_dir Calls.done,
        ((tt, tt), (λ _. (tt, (λ _. tt)))),
        omega arith,
      )

  review-cases :
      (repo : String) (e : RepoLedgerEntry) (s : Executor W)
      → ((review fx deps repo e s).1.world ≡ s.world)
        ⊎ ((review fx deps repo e s).1.world
            ≡ (fx.run_review deps.instruction
                (or_default e.plan (minimal_plan repo))
                (fx.commit_range_diff e.repo_dir e.base_sha s.world).diff
                e.repo_dir
                s.world).1)
  unfolding review
  review-cases repo e s =
      let wd = fx.commit_range_diff e.repo_dir e.base_sha s.world in
      elim (Bool-cases wd.complete) [
        | inl whole ↦ inr (rw (whole, review) (judge-world repo wd.diff e s))
        | inr cut ↦ inl (rw (cut, review))
      ]

  pub work-cases :
      (repo i : String) (e : RepoLedgerEntry) (s : Executor W)
      → (((work fx deps repo i e s).1.world ≡ s.world)
          × ((work fx deps repo i e s).1.ledger.worker_runs_used ≡ s.ledger.worker_runs_used)
          × ((work fx deps repo i e s).1.ledger.repos ≡ s.ledger.repos))
        ⊎ ((s.ledger.worker_runs_used < s.ledger.max_worker_runs)
            × (work fx deps repo i e s
                ≡ implement fx deps repo i e (record s {
                  ledger = record s.ledger { worker_runs_used = s.ledger.worker_runs_used + 1 };
                })))
  unfolding work
  work-cases repo i e s = elim (consume_worker_run-cases s.ledger) [
    | inl (r, spent) ↦ inl (
      rw (spent, work),
      rw (spent, work) (ap (λ c. c.0.worker_runs_used) spent),
      rw (spent, work) (ap (λ c. c.0.repos) spent),
    )
    | inr (below, took) ↦ inr (
      below,
      rw (took, work) (ap (λ c. implement fx deps repo i e (record s { ledger = c.0 })) took),
    )
  ]

  make_plan-Acts :
      (repo : String) (e : RepoLedgerEntry) (s : Executor W)
      → Acts (plan_repo repo) s (make_plan fx deps repo e s).1
  make_plan-Acts repo e s =
      let b = make_plan-SameBudget fx deps repo e s in
      rw (make_plan-world repo e s) (
        plans e.repo_dir ∷ [],
        planned deps.instruction e.repo_dir Calls.done,
        ((tt, tt), (λ _. (tt, (λ _. tt)))),
        omega arith,
      )

  ask-Acts : (q : String) (s : Executor W) → Acts (ask_human q) s (ask fx deps q s).1
  ask-Acts q s = rw (ask-world q s) (
    asks (asked q) (fx.ask_human (asked q) s.world).0 ∷ [],
    asked_of (asked q) Calls.done,
    ((tt, tt), (λ _. (tt, (λ _. tt)))),
    (unfold ask in ground arith),
  )

  review-Acts :
      (repo : String) (e : RepoLedgerEntry) (s : Executor W)
      → Acts (review_diff repo) s (review fx deps repo e s).1
  review-Acts repo e s =
      let b = review-SameBudget fx deps repo e s in
      let d = (fx.commit_range_diff e.repo_dir e.base_sha s.world).diff in
      elim (review-cases repo e s) [
        | inl same ↦ rw same ([], Calls.done, (tt, (λ _. (tt, (λ _. tt)))), omega arith)
        | inr judged ↦ rw judged (
          reviews (or_default e.plan (minimal_plan repo)) d ∷ [],
          reviewed deps.instruction (or_default e.plan (minimal_plan repo)) d e.repo_dir Calls.done,
          ((tt, tt), (λ _. (tt, (λ _. tt)))),
          omega arith,
        )
      ]

  work-Acts :
      (repo i : String) (e : RepoLedgerEntry) (s : Executor W)
      → get_repo repo s.ledger ≡ some e
      → Acts (run_worker repo i) s (work fx deps repo i e s).1
  work-Acts repo i e s found = elim (work-cases repo i e s) [
    | inl (same, kept, _) ↦ rw same ([], Calls.done, (tt, (λ _. (tt, (λ _. tt)))), omega arith)
    | inr (below, same) ↦
        let l : SpineLedger = record s.ledger {
          worker_runs_used = s.ledger.worker_runs_used + 1;
        } in
        let s' : Executor W = record s { ledger = l } in
        let b = implement-SameBudget fx deps repo i e s' in
        let p : WorkerPrompt = record { plan = e.plan; instruction = i } in
        let n = (next_worker_run_seq repo s').1 in
        rw (same, implement-world repo i e s')
          (
            implements e.repo_dir p repo n ∷ [],
            implemented e.repo_dir p repo n Calls.done,
            (((e, found, refl, refl, below), tt), (λ _. (tt, (λ _. tt)))),
            omega arith,
          )
  ]

  All-Permits :
      (repo : String) (e : RepoLedgerEntry) (s : Executor W) (cs : List Call)
      → get_repo repo s.ledger ≡ some e
      → IsCleared e
      → (fx.commit_range_diff e.repo_dir e.base_sha s.world).complete ≡ true
      → All (SendsEntry e (fx.commit_range_diff e.repo_dir e.base_sha s.world).diff) cs
      → worker_calls cs ≡ 0
      → All (Permits (request_publish repo) s) cs
  All-Permits repo e s [] found c whole sent none_run = tt
  All-Permits repo e s (publishes ctx dir ∷ cs) found c whole (here, sent) none_run =
      ((e, found, c, whole, here), All-Permits repo e s cs found c whole sent none_run)
  All-Permits repo e s (implements d p r n ∷ cs) found c whole sent none_run = absurd (omega arith)
  All-Permits repo e s (_ ∷ cs) found c whole (_, sent) none_run =
      (tt, All-Permits repo e s cs found c whole sent none_run)

  gated-Permits :
      (repo : String) (e : RepoLedgerEntry) (s : Executor W) (cs : List Call)
      → get_repo repo s.ledger ≡ some e
      → ((cs ≡ [])
          ⊎ ((can_publish repo s.ledger ≡ ok)
              × ((fx.commit_range_diff e.repo_dir e.base_sha s.world).complete ≡ true)))
      → All (SendsEntry e (fx.commit_range_diff e.repo_dir e.base_sha s.world).diff) cs
      → worker_calls cs ≡ 0
      → All (Permits (request_publish repo) s) cs
  gated-Permits repo e s cs found (inl nothing) sent none_run = rw nothing tt
  gated-Permits repo e s cs found (inr (passed, whole)) sent none_run =
      let (e', found', c) = (can_publish_iff repo s.ledger).0 passed in
      let same : e' ≡ e = cc in All-Permits repo e s cs found (rw same at c) whole sent none_run

  publish-Acts :
      (repo : String) (e : RepoLedgerEntry) (s : Executor W)
      → get_repo repo s.ledger ≡ some e
      → Acts (request_publish repo) s (ask_publish fx deps repo e s).1
  publish-Acts repo e s found =
      let b = ask_publish-SameBudget fx deps repo e s in
      let (cs, calls, (passed, sent, none_run, asked_first)) = ask_publish-calls fx deps repo e s in
      (cs, calls, (gated-Permits repo e s cs found passed sent none_run, asked_first), omega arith)

  require_repo-Acts :
      (a : SpineAction) (repo : String) (k : RepoLedgerEntry → Executor W → Outcome × Executor W)
      (s : Executor W)
      → ((e : RepoLedgerEntry) → get_repo repo s.ledger ≡ some e → Acts a s (k e s).1)
      → Acts a s (require_repo repo k s).1
  require_repo-Acts a repo k s acts = elim (Option-cases (get_repo repo s.ledger)) [
    | inl missing ↦
        rw (missing, require_repo) ([], Calls.done, (tt, (λ _. (tt, (λ _. tt)))), omega arith)
    | inr (e, found) ↦ rw (found, require_repo) (acts e found)
  ]

  pub act-Acts : (a : SpineAction) (s : Executor W) → Acts a s (act fx deps a s).1
  unfolding act
  act-Acts (run_worker repo i) s =
      require_repo-Acts (run_worker repo i) repo (work fx deps repo i) s (λ e. work-Acts repo i e s)
  act-Acts (run_tests repo) s =
      require_repo-Acts (run_tests repo) repo (test fx deps repo) s (λ e _. test-Acts repo e s)
  act-Acts (review_diff repo) s =
      require_repo-Acts (review_diff repo) repo (review fx deps repo) s
        (λ e _. review-Acts repo e s)
  act-Acts (plan_repo repo) s =
      require_repo-Acts (plan_repo repo) repo (make_plan fx deps repo) s
        (λ e _. make_plan-Acts repo e s)
  act-Acts (ask_human q) s = ask-Acts q s
  act-Acts (show_human c) s =
      (says ∷ [], said c Calls.done, ((tt, tt), (λ _. (tt, (λ _. tt)))), omega arith)
  act-Acts (request_publish repo) s =
      require_repo-Acts (request_publish repo) repo (ask_publish fx deps repo) s
        (λ e. publish-Acts repo e s)
  act-Acts (done m) s = ([], Calls.done, (tt, (λ _. (tt, (λ _. tt)))), omega arith)
  act-Acts (abort m) s = ([], Calls.done, (tt, (λ _. (tt, (λ _. tt)))), omega arith)
