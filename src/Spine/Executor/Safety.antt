-- ===== src/Spine/Executor/Safety.antt =====
-- What every dispatch of harness/src/spine/executor.ts does to the outside.
use muti_repo_workspace.Prelude.{
  ◌+◌, ◌≤◌, String, Bool, true, Option, none, some, List, [], ◌∷◌, ◌++◌, ◌≡◌, refl, ◌⊎◌, inl, inr,
  arith, Bool-cases, Option-cases, ap, sym, ◌||◌, leb, append-nil, ◌∙◌, Dict, All-append,
}
use muti_repo_workspace.Spine.Ledger.{
  SpineLedger, ok, refused, consume_action, get_repo, Reason, actions_exhausted, new_ledger,
  SpineEnv, LedgerRepoInit, LedgerBudgets,
}
use muti_repo_workspace.Spine.Ledger.Store.{persist}
use muti_repo_workspace.Spine.Actions.{SpineAction}
use muti_repo_workspace.Spine.Effects.{Effects}
use muti_repo_workspace.Spine.Executor.State.{ExecutorDeps, Executor, Outcome, create_executor}
use muti_repo_workspace.Spine.Executor.Dispatch.{act, run_action, settle, dispatch}
use muti_repo_workspace.Spine.Executor.Serial.{dispatch-cases}
use muti_repo_workspace.Spine.Executor.Budget.{settle-ledger}
use muti_repo_workspace.Spine.Executor.Session.{run_session, run_session-IsBudgeted}
use muti_repo_workspace.Spine.Executor.Calls.{
  Call, publishes, asks, writes, Calls, Calls-append, written, AwaitsYes, is_confirm,
  is_acknowledge, worker_calls, worker_calls-append, says_yes,
}
use muti_repo_workspace.Spine.Executor.Permits.{sends_tests}
use muti_repo_workspace.Spine.Executor.Rights.{Permits, IsAllowed, Acts, act-Acts}
use muti_repo_workspace.Spine.Effects.{Question}

pub consume_action-cases :
    (l : SpineLedger)
    → ((r : Reason) × (consume_action l ≡ (l, refused r)))
      ⊎ (consume_action l ≡ (record l { actions_used = l.actions_used + 1 }, ok))
unfolding consume_action
consume_action-cases l = elim (Bool-cases (leb l.max_actions l.actions_used)) [
  | inl spent ↦ inl (actions_exhausted l.actions_used l.max_actions, rw spent)
  | inr left ↦ inr (rw left)
]

-- Further calls that publish nothing keep what the calls await.
AwaitsYes-append :
    (q : Question → Bool) (cs ds : List Call)
    → AwaitsYes q cs
    → AwaitsYes q ds
    → AwaitsYes q (cs ++ ds)
AwaitsYes-append q [] ds h k = k
AwaitsYes-append q (publishes ctx dir ∷ cs) ds h k = absurd h
AwaitsYes-append q (asks x a ∷ cs) ds h k = elim (Bool-cases (q x)) [
  | inr other ↦ rw other (AwaitsYes-append q cs ds (rw other at h) k)
  | inl asked ↦ elim (Bool-cases (says_yes a)) [
    | inl agrees ↦ rw (asked, agrees) tt
    | inr refuses ↦ rw (asked, refuses) (AwaitsYes-append q cs ds (rw (asked, refuses) at h) k)
  ]
]
AwaitsYes-append q (_ ∷ cs) ds h k = AwaitsYes-append q cs ds h k

sends_tests-append_writes :
    (touches : String → Bool) (cs : List Call)
    → sends_tests touches (cs ++ writes ∷ []) ≡ sends_tests touches cs
sends_tests-append_writes touches [] = refl
sends_tests-append_writes touches (publishes ctx dir ∷ cs) =
    ap (λ b. touches ctx.diff || b) (sends_tests-append_writes touches cs)
sends_tests-append_writes touches (_ ∷ cs) = sends_tests-append_writes touches cs

module _ {W : Type 0} (fx : Effects W) (deps : ExecutorDeps) where
  -- The state of a refused action, and that of an action which runs.
  pub run_action_spent :
      (a : SpineAction) (s : Executor W) (r : Reason)
      → consume_action s.ledger ≡ (s.ledger, refused r)
      → (run_action fx deps a s).1 ≡ s
  unfolding run_action
  run_action_spent a s r spent = rw (spent, run_action) (ap (λ c. record s { ledger = c.0 }) spent)

  pub run_action_took :
      (a : SpineAction) (s : Executor W)
      → consume_action s.ledger ≡ (record s.ledger { actions_used = s.ledger.actions_used + 1 }, ok)
      → run_action fx deps a s
        ≡ act fx deps a
            (record s { ledger = record s.ledger { actions_used = s.ledger.actions_used + 1 } })
  unfolding run_action
  run_action_took a s took =
      rw (took, run_action) (ap (λ c. act fx deps a (record s { ledger = c.0 })) took)

  run_action-Acts : (a : SpineAction) (s : Executor W) → Acts fx deps a s (run_action fx deps a s).1
  unfolding get_repo
  run_action-Acts a s = elim (consume_action-cases s.ledger) [
    | inl (r, spent) ↦
        rw (run_action_spent a s r spent)
          ([], Calls.done, (tt, (λ _. (tt, (λ _. tt)))), omega arith)
    | inr took ↦ rw (run_action_took a s took) (
        act-Acts fx deps a
          (record s { ledger = record s.ledger { actions_used = s.ledger.actions_used + 1 } }))
  ]

  settle_nowhere :
      (out : Outcome) (s : Executor W)
      → persist fx.stringify (fx.now s.world) none s.ledger ≡ none
      → (settle fx deps (out, s)).1.world ≡ s.world
  unfolding settle
  settle_nowhere out s h = rw (h, settle)

  settle_written :
      (out : Outcome) (s : Executor W) (dir : String) (file : String)
      → persist fx.stringify (fx.now s.world) none s.ledger ≡ some (dir, file)
      → (settle fx deps (out, s)).1.world ≡ (fx.write_ledger dir file s.world).1
  unfolding settle
  settle_written out s dir file h = rw (h, settle) (ground arith)

  -- The last call of a dispatch writes the ledger, if it has a directory.
  settle-writes :
      (r : Outcome × Executor W)
      → (Calls fx r.1.world [] (settle fx deps r).1.world)
        ⊎ (Calls fx r.1.world (writes ∷ []) (settle fx deps r).1.world)
  settle-writes (out, s) =
      elim (Option-cases (persist fx.stringify (fx.now s.world) none s.ledger)) [
        | inl nowhere ↦ inl (rw (settle_nowhere out s nowhere) Calls.done)
        | inr ((dir, file), target) ↦
            inr (rw (settle_written out s dir file target) (written dir file Calls.done))
      ]

  add_writes :
      (a : SpineAction) (s : Executor W) (cs : List Call)
      → IsAllowed fx deps a s cs
      → IsAllowed fx deps a s (cs ++ writes ∷ [])
  add_writes a s cs (permitted, awaits) = (
    All-append (Permits fx deps a s) cs (writes ∷ []) permitted (tt, tt),
    λ chat. (
      AwaitsYes-append is_confirm cs (writes ∷ []) (awaits chat).0 tt,
      λ touched.
          AwaitsYes-append is_acknowledge cs (writes ∷ [])
            ((awaits chat).1 (sym (sends_tests-append_writes fx.diff_touches_tests cs) ∙ touched))
            tt,
    ),
  )

  settle-Acts :
      (a : SpineAction) (s : Executor W) (r : Outcome × Executor W)
      → Acts fx deps a s r.1
      → Acts fx deps a s (settle fx deps r).1
  settle-Acts a s r (cs, calls, allowed, counted) =
      let kept = settle-ledger fx deps r in
      let same = ap (λ l. l.worker_runs_used) kept in
      elim (settle-writes r) [
        | inl none_more ↦ (
          cs ++ [],
          Calls-append fx calls none_more,
          rw (append-nil cs) allowed,
          rw (append-nil cs) (omega (arith, counted, same)),
        )
        | inr one_more ↦ (
          cs ++ writes ∷ [],
          Calls-append fx calls one_more,
          add_writes a s cs allowed,
          omega (arith, worker_calls-append cs (writes ∷ []), counted, same),
        )
      ]

  -- Whatever is dispatched in whatever state, the outside changes by a list of calls such that: a
  -- publish is asked for only by `request_publish`, of a repo with a plan, green tests and an
  -- approving review at its recorded HEAD and a complete diff, and hands over that plan, review and
  -- diff; under the chat's policy no publish comes before a yes to the final question nor, if its
  -- diff touches tests, before a yes to the caveat; the worker runs only by `run_worker` within its
  -- budget, and the runs are the ones that the ledger counts.
  pub dispatch-Acts : (a : SpineAction) (s : Executor W) → Acts fx deps a s (dispatch fx deps a s).1
  dispatch-Acts a s = elim (dispatch-cases fx deps a s) [
    | inl (out, refusal, same) ↦ rw same ([], Calls.done, (tt, (λ _. (tt, (λ _. tt)))), omega arith)
    | inr (_, _, runs) ↦
        let s' : Executor W = record s { is_busy = true } in
        rw runs (settle-Acts a s (run_action fx deps a s') (run_action-Acts a s'))
  ]

  session-Calls :
      (acts : List SpineAction) (s : Executor W)
      → (cs : List Call) × Calls fx s.world cs (run_session fx deps acts s).1.world
        × (worker_calls cs + s.ledger.worker_runs_used
            ≡ (run_session fx deps acts s).1.ledger.worker_runs_used)
  unfolding run_session
  session-Calls [] s = ([], Calls.done, omega arith)
  session-Calls (a ∷ acts) s =
      let (cs, calls, _, counted) = dispatch-Acts a s in
      let (ds, calls', counted') = session-Calls acts (dispatch fx deps a s).1 in
      (
        cs ++ ds,
        Calls-append fx calls calls',
        omega (arith, worker_calls-append cs ds, counted, counted'),
      )

-- A session on a new ledger runs the worker at most as often as the ledger's budget says: the calls
-- by which the whole session changes the outside hold no more worker runs.
pub run_session-worker_calls :
    {W : Type 0} (fx : Effects W) (deps : ExecutorDeps) (env : SpineEnv) (ticket : String)
    (repos : Dict LedgerRepoInit) (budgets : LedgerBudgets) (dir : Option String) (w : W)
    (acts : List SpineAction)
    → let l = new_ledger env ticket repos budgets dir in
      (cs : List Call) × Calls fx w cs (run_session fx deps acts (create_executor l w)).1.world
      × (worker_calls cs ≤ l.max_worker_runs)
unfolding create_executor
run_session-worker_calls fx deps env ticket repos budgets dir w acts =
    let l = new_ledger env ticket repos budgets dir in
    let (cs, calls, counted) = session-Calls fx deps acts (create_executor l w) in
    let (_, within, _) = run_session-IsBudgeted fx deps env ticket repos budgets dir w acts in
    (cs, calls, omega (arith, counted, within))
