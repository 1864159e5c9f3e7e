-- ===== src/Spine/Executor/Sending.antt =====
-- The calls that `request_publish` of harness/src/spine/executor.ts makes.
use muti_repo_workspace.Prelude.{
  String, Bool, true, false, none, some, List, [], ◌∷◌, All, ◌≡◌, refl, ◌⊎◌, inl, inr, arith,
  Bool-cases, Option-cases, sym, ap, subst,
}
use muti_repo_workspace.Spine.Ledger.{RepoLedgerEntry, ReviewApproved}
use muti_repo_workspace.Spine.Actions.{ErrorText, declined_publish, declined_at_caveat}
use muti_repo_workspace.Spine.Effects.{
  Effects, Attempt, returned, threw, PublishContext, Question, confirm_publish, acknowledge_tests,
}
use muti_repo_workspace.Spine.Executor.State.{ExecutorDeps, Executor, Outcome}
use muti_repo_workspace.Spine.Executor.Publish.{
  send, on_answer, on_yes, confirm, approve_in_chat, shown_review,
}
use muti_repo_workspace.Spine.Executor.Calls.{
  Call, publishes, asks, shows, Calls, done, published, asked_of, shown, worker_calls, says_yes,
  AwaitsYes, AwaitsYes-asks, AwaitsYes-said, is_confirm, is_acknowledge,
}

-- A publish call hands over the entry's plan, the review that its verdict records, and the diff.
abbrev pub SendsEntry : RepoLedgerEntry → String → Call → Type 0
SendsEntry e d (publishes ctx dir) =
    (dir ≡ e.repo_dir)
    × (ctx.plan ≡ e.plan)
    × (ctx.diff ≡ d)
    × (r : ReviewApproved) × (e.review_approved ≡ some r)
    × (ctx.review ≡ some r.review)
SendsEntry e d _ = Unit

module _ {W : Type 0} (fx : Effects W) (deps : ExecutorDeps) where
  send-world :
      (repo d : String) (e : RepoLedgerEntry) (r : ReviewApproved) (s : Executor W)
      → e.review_approved ≡ some r
      → (send fx deps repo d e s).1.world
        ≡ (fx.publish
            (record { plan = e.plan; review = some r.review; diff = d })
            e.repo_dir
            s.world).1
  unfolding send
  send-world repo d e r s h = ground arith

  send-world_none :
      (repo d : String) (e : RepoLedgerEntry) (s : Executor W)
      → e.review_approved ≡ none
      → (send fx deps repo d e s).1.world ≡ s.world
  unfolding send
  send-world_none repo d e s h = ground arith

  -- The calls of the part after the gates.
  abbrev pub Sends : String → RepoLedgerEntry → W → W → Type 0
  Sends d e w w' =
      (cs : List Call) × Calls fx w cs w' × All (SendsEntry e d) cs × (worker_calls cs ≡ 0)

  pub send-Sends :
      (repo d : String) (e : RepoLedgerEntry) (s : Executor W)
      → Sends d e s.world (send fx deps repo d e s).1.world
  send-Sends repo d e s = elim (Option-cases e.review_approved) [
    | inl h ↦ rw (send-world_none repo d e s h) ([], done, tt, refl)
    | inr (r, h) ↦
        let ctx : PublishContext = record { plan = e.plan; review = some r.review; diff = d } in
        rw (send-world repo d e r s h) (
          publishes ctx e.repo_dir ∷ [],
          published ctx e.repo_dir done,
          ((refl, refl, refl, r, h, refl), tt),
          refl,
        )
  ]

  on_answer_yes :
      (text : ErrorText) (k : Executor W → Outcome × Executor W) (a : Attempt String)
      (s : Executor W)
      → says_yes a ≡ true
      → on_answer fx deps text k a s ≡ k s
  on_answer_yes text k (threw m) s h = cc
  on_answer_yes text k (returned a) s h = rw h

  on_answer_no :
      (text : ErrorText) (k : Executor W → Outcome × Executor W) (a : Attempt String)
      (s : Executor W)
      → says_yes a ≡ false
      → (on_answer fx deps text k a s).1 ≡ s
  on_answer_no text k (threw m) s h = refl
  on_answer_no text k (returned a) s h = rw h

  -- The calls are the question alone, or the question with a yes and then the calls of the rest.
  abbrev OnYes : Question → (List Call → Type 0) → W → W → Type 0
  OnYes q R w w' =
      let a = (fx.ask_human q w).0 in
      (cs : List Call) × Calls fx w cs w'
      × ((cs ≡ asks q a ∷ [])
          ⊎ ((says_yes a ≡ true) × (ds : List Call) × (cs ≡ asks q a ∷ ds) × R ds))

  on_yes-calls :
      (q : Question) (text : ErrorText) (k : Executor W → Outcome × Executor W) (s : Executor W)
      (R : List Call → Type 0)
      → (let w = (fx.ask_human q s.world).1 in
          (ds : List Call) × Calls fx w ds (k (record s { world = w })).1.world × R ds)
      → OnYes q R s.world (on_yes fx deps q text k s).1.world
  on_yes-calls q text k s R (ds, calls, rds) =
      let a = (fx.ask_human q s.world).0 in
      let s' : Executor W = record s { world = (fx.ask_human q s.world).1 } in
      elim (Bool-cases (says_yes a)) [
        | inl agrees ↦ (
          asks q a ∷ ds,
          subst (λ w. Calls fx s.world (asks q a ∷ ds) w)
              (sym (ap (λ r. r.1.world) (on_answer_yes text k a s' agrees))) (asked_of q calls),
          inr (agrees, ds, refl, rds),
        )
        | inr refuses ↦ (
          asks q a ∷ [],
          subst (λ w. Calls fx s.world (asks q a ∷ []) w)
              (sym (ap (λ r. r.world) (on_answer_no text k a s' refuses))) (asked_of q done),
          inl refl,
        )
      ]

  -- The calls from the final question on.
  abbrev Confirms : String → RepoLedgerEntry → List Call → Type 0
  Confirms d e cs = All (SendsEntry e d) cs × (worker_calls cs ≡ 0) × AwaitsYes is_confirm cs

  OnYes-Confirms :
      (d : String) (e : RepoLedgerEntry) (a : Attempt String) (cs : List Call)
      → ((cs ≡ asks confirm_publish a ∷ [])
          ⊎ ((says_yes a ≡ true)
              × (ds : List Call) × (cs ≡ asks confirm_publish a ∷ ds)
              × (All (SendsEntry e d) ds × (worker_calls ds ≡ 0))))
      → Confirms d e cs
  OnYes-Confirms d e a cs (inl p) =
      rw p ((tt, tt), refl, AwaitsYes-asks is_confirm confirm_publish a [] tt)
  OnYes-Confirms d e a cs (inr (agrees, ds, p, (sent, none_run))) =
      rw p ((tt, sent), none_run, AwaitsYes-said is_confirm confirm_publish a ds refl agrees)

  confirm-calls :
      (repo d : String) (e : RepoLedgerEntry) (s : Executor W)
      → (cs : List Call) × Calls fx s.world cs (confirm fx deps repo d e s).1.world
        × Confirms d e cs
  unfolding confirm
  confirm-calls repo d e s =
      let s' : Executor W = record s { world = (fx.ask_human confirm_publish s.world).1 } in
      let (ds, calls, sent, none_run) = send-Sends repo d e s' in
      let (cs, calls', shape) =
        on_yes-calls confirm_publish declined_publish (send fx deps repo d e) s
          (λ ds. All (SendsEntry e d) ds × (worker_calls ds ≡ 0)) (ds, calls, (sent, none_run)) in
      (cs, calls', OnYes-Confirms d e (fx.ask_human confirm_publish s.world).0 cs shape)

  -- The calls of the chat's gate; `touches` is whether the diff touches tests.
  abbrev pub ConfirmsInChat : Bool → String → RepoLedgerEntry → List Call → Type 0
  ConfirmsInChat touches d e cs =
      All (SendsEntry e d) cs
      × (worker_calls cs ≡ 0)
      × AwaitsYes is_confirm cs
      × (touches ≡ true → AwaitsYes is_acknowledge cs)

  OnYes-ConfirmsInChat :
      (touches : Bool) (d : String) (e : RepoLedgerEntry) (a : Attempt String) (cs : List Call)
      → ((cs ≡ asks acknowledge_tests a ∷ [])
          ⊎ ((says_yes a ≡ true)
              × (ds : List Call) × (cs ≡ asks acknowledge_tests a ∷ ds)
              × Confirms d e ds))
      → ConfirmsInChat touches d e (shows ∷ cs)
  OnYes-ConfirmsInChat touches d e a cs (inl p) = rw p (
    (tt, (tt, tt)),
    refl,
    AwaitsYes-asks is_confirm acknowledge_tests a [] tt,
    (λ _. AwaitsYes-asks is_acknowledge acknowledge_tests a [] tt),
  )
  OnYes-ConfirmsInChat touches d e a cs (inr (agrees, ds, p, (sent, none_run, awaits))) = rw p (
    (tt, (tt, sent)),
    none_run,
    AwaitsYes-asks is_confirm acknowledge_tests a ds awaits,
    (λ _. AwaitsYes-said is_acknowledge acknowledge_tests a ds refl agrees),
  )

  pub approve_in_chat-calls :
      (repo d : String) (e : RepoLedgerEntry) (s : Executor W)
      → (cs : List Call) × Calls fx s.world cs (approve_in_chat fx deps repo d e s).1.world
        × ConfirmsInChat (fx.diff_touches_tests d) d e cs
  unfolding approve_in_chat
  approve_in_chat-calls repo d e s =
      let v = shown_review fx deps e.review_approved in
      let s' : Executor W = record s { world = fx.show_for_approval e.plan v d s.world } in
      elim (Bool-cases (fx.diff_touches_tests d)) [
        | inr untouched ↦
            let (ds, calls, (sent, none_run, awaits)) = confirm-calls repo d e s' in
            rw untouched
              (shows ∷ ds, shown e.plan v d calls, ((tt, sent), none_run, awaits, (λ h. cc)))
        | inl touched ↦
            let s'' : Executor W = record s' {
              world = (fx.ask_human acknowledge_tests s'.world).1;
            } in
            let (ds, calls, confirmed) = confirm-calls repo d e s'' in
            let (cs, calls', shape) =
              on_yes-calls acknowledge_tests declined_at_caveat (confirm fx deps repo d e) s'
                (Confirms d e) (ds, calls, confirmed) in
            rw touched (
              shows ∷ cs,
              shown e.plan v d calls',
              OnYes-ConfirmsInChat true d e (fx.ask_human acknowledge_tests s'.world).0 cs shape,
            )
      ]
