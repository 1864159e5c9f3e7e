-- ===== src/Spine/Executor/Provenance.antt =====
-- Sessions of harness/src/spine/executor.ts: what was run and answered when the publish gate passes.
use muti_repo_workspace.Contracts.{Review}
use muti_repo_workspace.Prelude.{
  ◌+◌, String, true, Option, none, some, List, [], ◌∷◌, ◌≡◌, refl, ◌⊎◌, inl, inr, Option-cases, ap,
  Dict, arith, subst, lookup, put, lookup-put, str_eq, Bool-cases,
}
use muti_repo_workspace.Spine.Ledger.{
  SpineLedger, RepoLedgerEntry, LedgerRepoInit, SpineEnv, LedgerBudgets, new_ledger, seed,
  fresh_entry, get_repo, can_publish, ok,
}
use muti_repo_workspace.Spine.Ledger.Gate.{can_publish_iff}
use muti_repo_workspace.Spine.Ledger.Trace.{
  LedgerOp, worker_ran, tests_ran, reviewed, plan_made, was_published, apply, AtHead, ShowsGreen,
  ShowsApproval, apply-ShowsGreen, apply-ShowsApproval, IsGreenRun, IsApproval,
}
use muti_repo_workspace.Spine.Ledger.Provenance.{ShowsGreen-AtHead, ShowsApproval-AtHead}
use muti_repo_workspace.Spine.Actions.{
  SpineAction, run_worker, run_tests, review_diff, plan_repo, ask_human, show_human,
  request_publish, done, abort,
}
use muti_repo_workspace.Spine.Effects.{Effects}
use muti_repo_workspace.Spine.Executor.State.{
  ExecutorDeps, Executor, Outcome, require_repo, create_executor,
}
use muti_repo_workspace.Spine.Executor.Steps.{work, test, review, make_plan}
use muti_repo_workspace.Spine.Executor.Publish.{ask_publish}
use muti_repo_workspace.Spine.Executor.Dispatch.{act, run_action, dispatch}
use muti_repo_workspace.Spine.Executor.Serial.{dispatch-cases}
use muti_repo_workspace.Spine.Executor.Budget.{settle-ledger}
use muti_repo_workspace.Spine.Executor.Safety.{
  consume_action-cases, run_action_spent, run_action_took,
}
use muti_repo_workspace.Spine.Executor.Session.{run_session}
use muti_repo_workspace.Spine.Executor.Evidence.{
  Explains, Records, test-Records, review-Records, work-Records, make_plan-Records, ask-Records,
  MayPublish-Records, ask_publish-MayPublish,
}

module _ {W : Type 0} (fx : Effects W) (deps : ExecutorDeps) where
  require_repo-Records :
      (a : SpineAction) (repo : String) (k : RepoLedgerEntry → Executor W → Outcome × Executor W)
      (s : Executor W)
      → ((e : RepoLedgerEntry) → get_repo repo s.ledger ≡ some e → Records fx deps a s (k e s).1)
      → Records fx deps a s (require_repo repo k s).1
  require_repo-Records a repo k s records = elim (Option-cases (get_repo repo s.ledger)) [
    | inl missing ↦ inl (rw (missing, require_repo))
    | inr (e, found) ↦ rw (found, require_repo) (records e found)
  ]

  act-Records : (a : SpineAction) (s : Executor W) → Records fx deps a s (act fx deps a s).1
  unfolding act
  act-Records (run_worker repo i) s =
      require_repo-Records (run_worker repo i) repo (work fx deps repo i) s
        (λ e _. work-Records fx deps (run_worker repo i) repo i e s)
  act-Records (run_tests repo) s =
      require_repo-Records (run_tests repo) repo (test fx deps repo) s
        (λ e. test-Records fx deps repo e s)
  act-Records (review_diff repo) s =
      require_repo-Records (review_diff repo) repo (review fx deps repo) s
        (λ e. review-Records fx deps repo e s)
  act-Records (plan_repo repo) s =
      require_repo-Records (plan_repo repo) repo (make_plan fx deps repo) s
        (λ e _. make_plan-Records fx deps (plan_repo repo) repo e s)
  act-Records (ask_human q) s = ask-Records fx deps (ask_human q) q s
  act-Records (show_human c) s = inl refl
  act-Records (request_publish repo) s =
      require_repo-Records (request_publish repo) repo (ask_publish fx deps repo) s (λ e _.
        MayPublish-Records fx deps (request_publish repo) s (ask_publish fx deps repo e s).1
          (ask_publish-MayPublish fx deps repo e s))
  act-Records (done m) s = inl refl
  act-Records (abort m) s = inl refl

  -- An action that runs does so on a ledger that differs in the actions used alone.
  spent-Records :
      (a : SpineAction) (s s' : Executor W)
      → Records fx deps a
          (record s { ledger = record s.ledger { actions_used = s.ledger.actions_used + 1 } })
          s'
      → Records fx deps a s s'
  unfolding apply get_repo
  spent-Records a s s' (inl kept) = inl kept
  spent-Records a s s' (inr (worker_ran k c h, changed, why)) = inr (worker_ran k c h, changed, why)
  spent-Records a s s' (inr (tests_ran k p h, changed, why)) = inr (tests_ran k p h, changed, why)
  spent-Records a s s' (inr (reviewed k v h, changed, why)) = inr (reviewed k v h, changed, why)
  spent-Records a s s' (inr (plan_made k p, changed, why)) = inr (plan_made k p, changed, why)
  spent-Records a s s' (inr (was_published k h u, changed, why)) =
      inr (was_published k h u, changed, why)

  run_action-Records :
      (a : SpineAction) (s : Executor W) → Records fx deps a s (run_action fx deps a s).1
  run_action-Records a s = elim (consume_action-cases s.ledger) [
    | inl (r, spent) ↦ inl (ap (λ t. t.ledger.repos) (run_action_spent fx deps a s r spent))
    | inr took ↦
        let s' : Executor W = record s {
          ledger = record s.ledger { actions_used = s.ledger.actions_used + 1 };
        } in
        rw (run_action_took fx deps a s took)
          (spent-Records a s (act fx deps a s').1 (act-Records a s'))
  ]

  dispatch-Records :
      (a : SpineAction) (s : Executor W) → Records fx deps a s (dispatch fx deps a s).1
  dispatch-Records a s = elim (dispatch-cases fx deps a s) [
    | inl (out, refusal, same) ↦ inl (ap (λ r. r.1.ledger.repos) same)
    | inr (_, _, runs) ↦
        let s' : Executor W = record s { is_busy = true } in
        rw (runs, settle-ledger fx deps (run_action fx deps a s')) (run_action-Records a s')
  ]

  -- The recorded HEAD of `r` is `h` before and after each of the dispatches.
  abbrev pub HeadKept : String → String → Executor W → List SpineAction → Type 0
  HeadKept r h s [] = AtHead h (get_repo r s.ledger)
  HeadKept r h s (a ∷ acts) =
      AtHead h (get_repo r s.ledger) × HeadKept r h (dispatch fx deps a s).1 acts

  -- Among the dispatches is one that `P` holds of, and from it on the recorded HEAD of `r` is `h`.
  abbrev pub SinceDispatch :
      String → String → (SpineAction → Executor W → Type 0) → Executor W → List SpineAction → Type 0
  SinceDispatch r h P s [] = ⊥
  SinceDispatch r h P s (a ∷ acts) =
      (P a s × HeadKept r h (dispatch fx deps a s).1 acts)
      ⊎ SinceDispatch r h P (dispatch fx deps a s).1 acts

  -- The dispatch makes a record that the outside's answers explain: a passing test run of `r` whose
  -- HEAD was then `h`.
  abbrev pub RanGreen : String → String → SpineAction → Executor W → Type 0
  RanGreen r h a s =
      (o : LedgerOp) × IsGreenRun r h o
      × Explains fx deps a s o
      × ((dispatch fx deps a s).1.ledger.repos ≡ (apply o s.ledger).repos)

  -- Likewise an approving review `v` of `r`'s complete diff, whose HEAD was then `h`.
  abbrev pub Approved : String → String → Review → SpineAction → Executor W → Type 0
  Approved r h v a s =
      (o : LedgerOp) × IsApproval r h v o
      × Explains fx deps a s o
      × ((dispatch fx deps a s).1.ledger.repos ≡ (apply o s.ledger).repos)

  module _ (r h : String) (Shows : Option RepoLedgerEntry → Type 0) (P : LedgerOp → Type 0)
      (shown_at : (o : Option RepoLedgerEntry) → Shows o → AtHead h o)
      (step : (o : LedgerOp) (l : SpineLedger)
        → Shows (get_repo r (apply o l))
        → Shows (get_repo r l) ⊎ P o) where
    -- The dispatches that make the record.
    abbrev Makes : SpineAction → Executor W → Type 0
    Makes a s =
        (o : LedgerOp) × P o
        × Explains fx deps a s o
        × ((dispatch fx deps a s).1.ledger.repos ≡ (apply o s.ledger).repos)

    dispatch-shown :
        (a : SpineAction) (s : Executor W)
        → Shows (get_repo r (dispatch fx deps a s).1.ledger)
        → Shows (get_repo r s.ledger) ⊎ Makes a s
    unfolding get_repo
    dispatch-shown a s g = elim (dispatch-Records a s) [
      | inl kept ↦ inl (subst (λ m. Shows (lookup r m)) kept g)
      | inr (o, changed, why) ↦ elim (step o s.ledger (subst (λ m. Shows (lookup r m)) changed g)) [
        | inl before ↦ inl before
        | inr now ↦ inr (o, now, why, changed)
      ]
    ]

    session-shown :
        (acts : List SpineAction) (s : Executor W)
        → Shows (get_repo r (run_session fx deps acts s).1.ledger)
        → (Shows (get_repo r s.ledger) × HeadKept r h s acts) ⊎ SinceDispatch r h Makes s acts
    unfolding run_session
    session-shown [] s g = inl (g, shown_at (get_repo r s.ledger) g)
    session-shown (a ∷ acts) s g = elim (session-shown acts (dispatch fx deps a s).1 g) [
      | inr later ↦ inr (inr later)
      | inl (shown, kept) ↦ elim (dispatch-shown a s shown) [
        | inl before ↦ inl (before, (shown_at (get_repo r s.ledger) before, kept))
        | inr now ↦ inr (inl (now, kept))
      ]
    ]

-- No verdict is recorded of the entry.
abbrev HasNoVerdict : Option RepoLedgerEntry → Type 0
HasNoVerdict none = Unit
HasNoVerdict (some e) = (e.test_green ≡ none) × (e.review_approved ≡ none)

seed-HasNoVerdict :
    (r : String) (repos : Dict LedgerRepoInit) (m : Dict RepoLedgerEntry)
    → HasNoVerdict (lookup r m)
    → HasNoVerdict (lookup r (seed repos m))
unfolding seed
seed-HasNoVerdict r [] m h = h
seed-HasNoVerdict r ((k, init) ∷ repos) m h =
    seed-HasNoVerdict r repos (put k (fresh_entry init) m)
      (rw lookup-put (ground (arith, Bool-cases (str_eq k r))))

not-ShowsGreen : (h : String) (o : Option RepoLedgerEntry) → HasNoVerdict o → ¬ (ShowsGreen h o)
not-ShowsGreen h none n g = g
not-ShowsGreen h (some e) n g = ground arith

not-ShowsApproval :
    (h : String) (v : Review) (o : Option RepoLedgerEntry)
    → HasNoVerdict o
    → ¬ (ShowsApproval h v o)
not-ShowsApproval h v none n g = g
not-ShowsApproval h v (some e) n g = ground arith

new_ledger-HasNoVerdict :
    (r : String) (env : SpineEnv) (ticket : String) (repos : Dict LedgerRepoInit)
    (budgets : LedgerBudgets) (dir : Option String)
    → HasNoVerdict (get_repo r (new_ledger env ticket repos budgets dir))
unfolding new_ledger get_repo lookup
new_ledger-HasNoVerdict r env ticket repos budgets dir = seed-HasNoVerdict r repos [] tt

-- If, after any session on a new ledger, the publish gate passes for a repo, then for the entry's
-- HEAD the session holds a `run_tests` whose test run passed and was followed by that HEAD, and a
-- `review_diff` whose review of the complete diff approved and was followed by that HEAD, and since
-- each of them every dispatch has left the recorded HEAD as it is.
pub can_publish-SinceDispatch :
    {W : Type 0} (fx : Effects W) (deps : ExecutorDeps) (env : SpineEnv) (ticket : String)
    (repos : Dict LedgerRepoInit) (budgets : LedgerBudgets) (dir : Option String) (w : W)
    (acts : List SpineAction) (r : String)
    → let s = create_executor (new_ledger env ticket repos budgets dir) w in
      can_publish r (run_session fx deps acts s).1.ledger ≡ ok
      → (h : String) × (v : Review) × AtHead h (get_repo r (run_session fx deps acts s).1.ledger)
        × SinceDispatch fx deps r h (RanGreen fx deps r h) s acts
        × SinceDispatch fx deps r h (Approved fx deps r h v) s acts
unfolding create_executor
can_publish-SinceDispatch fx deps env ticket repos budgets dir w acts r passed =
    let l = new_ledger env ticket repos budgets dir in
    let s = create_executor l w in
    let bare = new_ledger-HasNoVerdict r env ticket repos budgets dir in
    let (e, found, c) = (can_publish_iff r (run_session fx deps acts s).1.ledger).0 passed in
    let h = e.head_sha in
    let green =
      session-shown fx deps r h (ShowsGreen h) (IsGreenRun r h) (ShowsGreen-AtHead h)
        (apply-ShowsGreen r h) acts s (rw found (refl, c.green)) in
    let approved =
      session-shown fx deps r h (ShowsApproval h c.review) (IsApproval r h c.review)
        (ShowsApproval-AtHead h c.review) (apply-ShowsApproval r h c.review) acts s
        (rw found (refl, c.reviewed)) in
    (
      h,
      c.review,
      rw found refl,
      elim green [ inl (g, _) ↦ absurd (not-ShowsGreen h _ bare g) | inr since ↦ since ],
      elim approved [
        | inl (g, _) ↦ absurd (not-ShowsApproval h c.review _ bare g)
        | inr since ↦ since
      ],
    )
