-- ===== src/Spine/Executor/Serial.antt =====
-- harness/src/spine/executor.ts: when `dispatch` refuses, and when it runs an action.
use muti_repo_workspace.Prelude.{
  ◌≡◌, ◌⊎◌, inl, inr, true, false, some, none, Option-cases, Bool-cases,
}
use muti_repo_workspace.Spine.Actions.{
  SpineAction, session_ended, busy, already_ended, already_executing, EndedInfo,
}
use muti_repo_workspace.Spine.Effects.{Effects}
use muti_repo_workspace.Spine.Executor.State.{ExecutorDeps, Executor, Outcome, fails}
use muti_repo_workspace.Spine.Executor.Dispatch.{dispatch, admit, run_action, settle}

-- The refusals that change nothing.
pub data IsRefusal : Outcome → Type 0 where
  over : (info : EndedInfo) → IsRefusal (fails session_ended (already_ended info))
  in_flight : IsRefusal (fails busy already_executing)

module _ {W : Type 0} (fx : Effects W) (deps : ExecutorDeps) where
  pub dispatch_over :
      (a : SpineAction) (s : Executor W) (info : EndedInfo)
      → s.ended ≡ some info
      → dispatch fx deps a s ≡ (fails session_ended (already_ended info), s)
  unfolding dispatch admit
  dispatch_over a s info e = λ i. admit fx deps (e i) s.is_busy a s

  pub dispatch_busy :
      (a : SpineAction) (s : Executor W)
      → s.ended ≡ none
      → s.is_busy ≡ true
      → dispatch fx deps a s ≡ (fails busy already_executing, s)
  unfolding dispatch admit
  dispatch_busy a s e b = λ i. admit fx deps (e i) (b i) a s

  pub dispatch_free :
      (a : SpineAction) (s : Executor W)
      → s.ended ≡ none
      → s.is_busy ≡ false
      → dispatch fx deps a s ≡ settle fx deps (run_action fx deps a (record s { is_busy = true }))
  unfolding dispatch admit
  dispatch_free a s e b = λ i. admit fx deps (e i) (b i) a s

  -- A dispatch either is refused and leaves the executor as it is, or runs the action.
  pub dispatch-cases :
      (a : SpineAction) (s : Executor W)
      → ((out : Outcome) × IsRefusal out × (dispatch fx deps a s ≡ (out, s)))
        ⊎ ((s.ended ≡ none)
            × (s.is_busy ≡ false)
            × (dispatch fx deps a s
                ≡ settle fx deps (run_action fx deps a (record s { is_busy = true }))))
  dispatch-cases a s = elim (Option-cases s.ended) [
    | inr (info, e) ↦ inl (_, over info, dispatch_over a s info e)
    | inl e ↦ elim (Bool-cases s.is_busy) [
      | inl b ↦ inl (_, in_flight, dispatch_busy a s e b)
      | inr b ↦ inr (e, b, dispatch_free a s e b)
    ]
  ]
