-- ===== src/Spine/Executor/Permits.antt =====
-- What a dispatch of harness/src/spine/executor.ts may ask of the outside.
use mathlib.Core.Logic.{◌⊎◌}
use muti_repo_workspace.Prelude.{
  String, Bool, true, false, List, [], ◌∷◌, All, ◌≡◌, refl, inl, inr, Bool-cases, ◌||◌,
}
use muti_repo_workspace.Spine.Ledger.{
  RepoLedgerEntry, LedgerCheck, ok, refused, can_publish, or_default, Reason,
}
use muti_repo_workspace.Spine.Effects.{Effects}
use muti_repo_workspace.Spine.Executor.State.{ExecutorDeps, Executor, in_chat, is_in_chat}
use muti_repo_workspace.Spine.Executor.Publish.{publish_gated, ask_publish}
use muti_repo_workspace.Spine.Executor.Calls.{
  Call, publishes, Calls, AwaitsYes, is_confirm, is_acknowledge, worker_calls,
}
use muti_repo_workspace.Spine.Executor.Sending.{SendsEntry, approve_in_chat-calls, send-Sends}

check-cases : (c : LedgerCheck) → (c ≡ ok) ⊎ ((r : Reason) × (c ≡ refused r))
check-cases ok = inl refl
check-cases (refused r) = inr (r, refl)

-- Whether a diff that is handed over touches tests.
abbrev pub sends_tests : (String → Bool) → List Call → Bool
sends_tests touches [] = false
sends_tests touches (publishes ctx dir ∷ cs) = touches ctx.diff || sends_tests touches cs
sends_tests touches (_ ∷ cs) = sends_tests touches cs

SendsEntry-touches :
    (touches : String → Bool) (e : RepoLedgerEntry) (d : String) (cs : List Call)
    → All (SendsEntry e d) cs
    → sends_tests touches cs ≡ true
    → touches d ≡ true
SendsEntry-touches touches e d [] h t = cc
SendsEntry-touches touches e d (publishes ctx dir ∷ cs) ((_, _, same, _, _, _), h) t =
    elim (Bool-cases (touches d)) [
      | inl u ↦ u
      | inr u ↦ SendsEntry-touches touches e d cs h (rw (same, u) at t)
    ]
SendsEntry-touches touches e d (_ ∷ cs) (_, h) t = SendsEntry-touches touches e d cs h t

module _ {W : Type 0} (fx : Effects W) (deps : ExecutorDeps) where
  -- The calls of `request_publish` on an entry.
  abbrev pub IsGated : String → RepoLedgerEntry → Executor W → List Call → Type 0
  IsGated repo e s cs =
      let wd = fx.commit_range_diff e.repo_dir e.base_sha s.world in
      ((cs ≡ []) ⊎ ((can_publish repo s.ledger ≡ ok) × (wd.complete ≡ true)))
      × All (SendsEntry e wd.diff) cs
      × (worker_calls cs ≡ 0)
      × (is_in_chat (or_default deps.approval_policy in_chat) ≡ true
          → AwaitsYes is_confirm cs
            × (sends_tests fx.diff_touches_tests cs ≡ true → AwaitsYes is_acknowledge cs))

  publish_gated-calls :
      (repo : String) (e : RepoLedgerEntry) (s : Executor W)
      → can_publish repo s.ledger ≡ ok
      → (cs : List Call) × Calls fx s.world cs (publish_gated fx deps repo e s).1.world
        × IsGated repo e s cs
  unfolding publish_gated
  publish_gated-calls repo e s open_gate =
      let wd = fx.commit_range_diff e.repo_dir e.base_sha s.world in
      elim (Bool-cases wd.complete) [
        | inr cut ↦ rw cut ([], Calls.done, (inl refl, tt, refl, (λ _. (tt, (λ _. tt)))))
        | inl whole ↦ elim (Bool-cases (is_in_chat (or_default deps.approval_policy in_chat))) [
          | inl chat ↦
              let (cs, calls, (sent, none_run, awaits, acks)) =
                approve_in_chat-calls fx deps repo wd.diff e s in
              rw (whole, chat)
                (
                  cs,
                  calls,
                  (
                    inr (open_gate, refl),
                    sent,
                    none_run,
                    (λ _. (
                      awaits,
                      (λ t. acks (SendsEntry-touches fx.diff_touches_tests e wd.diff cs sent t)),
                    )),
                  ),
                )
          | inr broker ↦
              let (cs, calls, sent, none_run) = send-Sends fx deps repo wd.diff e s in
              rw (whole, broker) (cs, calls, (inr (open_gate, refl), sent, none_run, (λ h. cc)))
        ]
      ]

  pub ask_publish-calls :
      (repo : String) (e : RepoLedgerEntry) (s : Executor W)
      → (cs : List Call) × Calls fx s.world cs (ask_publish fx deps repo e s).1.world
        × IsGated repo e s cs
  unfolding ask_publish
  ask_publish-calls repo e s = elim (check-cases (can_publish repo s.ledger)) [
    | inr (r, shut) ↦
        rw (shut, ask_publish) ([], Calls.done, (inl refl, tt, refl, (λ _. (tt, (λ _. tt)))))
    | inl open_gate ↦
        let same : ask_publish fx deps repo e s ≡ publish_gated fx deps repo e s =
          rw (open_gate, ask_publish) in
        rw same (publish_gated-calls repo e s open_gate)
  ]
