-- ===== src/Broker/Handler/Reported.antt =====
-- What broker/src/handler.ts tells the approval hub after an approval.
use muti_repo_workspace.Prelude.{
  ℕ, String, Bool, true, false, not, ◌&&◌, ◌==◌, nonempty, Option, some, ◌⊎◌, inl, inr, ◌≡◌, refl,
  if◌then◌else◌,
}
use muti_repo_workspace.Spine.Effects.{Attempt, returned, threw}
use muti_repo_workspace.Broker.Hub.{
  Hub, OutcomeWire, PublishOutcome, succeeded, failed, is_approved, report_outcome, DecideResult,
  waiting, rejected, decided, ViewWire,
}
use muti_repo_workspace.Broker.Hub.Approval.{Recorded, decide-Recorded}
use muti_repo_workspace.Broker.Hub.Turns.{decide}
use muti_repo_workspace.Broker.Handler.{
  PublishRequest, PublishResponse, push_failed, pr_failed, published, refused, RunResult, Render,
  rendered, not_fetched, incomplete, GroundTruth, Host, Checked, stopped, cleared, Prepared,
}
use muti_repo_workspace.Broker.Handler.Cleared.{recheck-Unpushed}
use muti_repo_workspace.Broker.Handler.Publish.{
  Handled, responded, raised, at_gate, Broker, recheck, finish, on_pr, on_push, push_and_open,
  after_approval, reports, act_on, gate, on_render, in_scratch, on_prepared, prepare,
  handle_request, drops, view_of, attributed,
}

-- The outcome that stands for the answer.
abbrev pub Reports : PublishResponse → PublishOutcome → Type 0
Reports (published sha branch url) x = x ≡ succeeded url
Reports (refused code error sha) x = (message : String) × (x ≡ failed message)

report_outcome-approved :
    (x : PublishOutcome) (h : Hub) (o : OutcomeWire)
    → h.last ≡ some o
    → is_approved o.decision ≡ true
    → (report_outcome x h).last ≡ some (record o { publish = some x })
unfolding report_outcome
report_outcome-approved x h o there approved = rw (there, approved) refl

-- The hub's last decision, which tells what is answered if it is an approval.
abbrev pub Told : Hub → PublishResponse → Type 0
Told h r =
    (o : OutcomeWire) × (h.last ≡ some o)
    × (is_approved o.decision ≡ true → (x : PublishOutcome) × (o.publish ≡ some x) × Reports r x)

module _ {W : Type 0} where
  -- With an answer the hub's last decision is the one from before the request, or one that tells of
  -- the answer.
  unfoldable pub Settles : Hub → Broker W × Handled → Type 0
  Settles h (b, responded r) = (b.hub.last ≡ h.last) ⊎ Told b.hub r
  Settles h (b, raised message) = Unit
  Settles h (b, at_gate) = Unit

  if-Settles :
      (h : Hub) (c : Bool) (a b : Broker W × Handled)
      → Settles h a
      → Settles h b
      → Settles h (if c then a else b)
  if-Settles h true a b first second = first
  if-Settles h false a b first second = second

module _ {W : Type 0} (host : Host W) where
  module _ (h0 h : Hub) (o : OutcomeWire) (there : h.last ≡ some o)
      (approved : is_approved o.decision ≡ true) where
    reports-Settles :
        (x : PublishOutcome) (w : W) (r : PublishResponse)
        → Reports r x
        → Settles h0 (reports host x h w r)
    unfolding Settles reports
    reports-Settles x w r told = inr (
      record o { publish = some x },
      report_outcome-approved x h o there approved,
      (λ _. (x, refl, told)),
    )

    on_pr-Settles :
        (p : Prepared) (x : W × Attempt (RunResult × Option String)) → Settles h0 (on_pr host p h x)
    unfolding on_pr Settles
    on_pr-Settles p (w, threw message) = tt
    on_pr-Settles p (w, returned (pr, url)) =
        let message : String = "push succeeded but gh pr create failed" in
        let unopened = refused pr_failed message (some p.sha) in
        if-Settles h0 (not pr.ok) (reports host (failed message) h w unopened)
          (reports host (succeeded url) h w (published p.sha p.branch url))
          (reports-Settles (failed message) w unopened (message, refl))
          (reports-Settles (succeeded url) w (published p.sha p.branch url) refl)

    on_push-Settles :
        (req : PublishRequest) (p : Prepared) (x : W × Attempt RunResult)
        → Settles h0 (on_push host req p h x)
    unfolding on_push Settles
    on_push-Settles req p (w, threw message) = tt
    on_push-Settles req p (w, returned push) =
        let unpushed = refused push_failed "git push failed" (some p.sha) in
        if-Settles h0 (not push.ok) (reports host (failed "git push failed") h w unpushed)
          (on_pr host p h _)
          (reports-Settles (failed "git push failed") w unpushed ("git push failed", refl))
          (on_pr-Settles p _)

    finish-Settles :
        (req : PublishRequest) (p : Prepared) (scratch : String) (w : W) (c : Checked {0} Unit)
        → recheck host req p w ≡ c
        → Settles h0 (finish host req p scratch h w c)
    unfolding finish push_and_open
    finish-Settles req p scratch w (cleared u) checked = on_push-Settles req p _
    finish-Settles req p scratch w (stopped (refused code error sha)) checked =
        reports-Settles (failed error) w (refused code error sha) (error, refl)
    finish-Settles req p scratch w (stopped (published sha branch url)) checked =
        let quiet = recheck-Unpushed host req p w _ checked in cc

  -- The scratch repository is removed whatever the end.
  cleaned-Settles :
      (h : Hub) (scratch : String) (x : Broker W × Handled)
      → Settles h x
      → Settles h (record x.0 { world = host.remove_scratch scratch x.0.world }, x.1)
  unfolding Settles
  cleaned-Settles h scratch (b, responded r) told = told
  cleaned-Settles h scratch (b, raised message) told = tt
  cleaned-Settles h scratch (b, at_gate) told = tt

  act_on-Settles :
      (h0 : Hub) (id : String) (now : ℕ) (view : ViewWire) (req : PublishRequest) (p : Prepared)
      (scratch : String) (d : Hub × DecideResult) (w : W)
      → Recorded id now view d.0 d.1
      → Settles h0 (act_on host req p scratch d w)
  unfolding act_on Settles after_approval
  act_on-Settles h0 id now view req p scratch (h, waiting) w recorded = tt
  act_on-Settles h0 id now view req p scratch (h, rejected) w (clear, last) =
      inr (_, last, (λ no. cc))
  act_on-Settles h0 id now view req p scratch (h, decided false c) w (clear, last) =
      inr (_, last, (λ no. cc))
  act_on-Settles h0 id now view req p scratch (h, decided true c) w (clear, last) =
      cleaned-Settles h0 scratch (after_approval host req p scratch h w)
        (finish-Settles h0 h _ last refl req p scratch w (recheck host req p w) refl)

  gate-Settles :
      (req : PublishRequest) (p : Prepared) (scratch : String) (g : GroundTruth) (h : Hub) (w : W)
      → Settles h (gate host req p scratch g h w)
  unfolding gate
  gate-Settles req p scratch g h w =
      let ticket = attributed req.ticket host.ticket_from_worktrees_root in
      let (w', verdict) = host.consult_reviewer g.diff req ticket w in
      let view = view_of host req p g verdict in
      let person = host.human view w' in
      act_on-Settles h person.id person.now view req p scratch
        (decide person.id person.now view (host.signal_aborted w') person.turns h) person.after
        (decide-Recorded person.id person.now view (host.signal_aborted w') person.turns h)

  on_render-Settles :
      (req : PublishRequest) (p : Prepared) (scratch : String) (h : Hub) (x : W × Render)
      → Settles h (on_render host req p scratch h x)
  unfolding on_render Settles
  on_render-Settles req p scratch h (w, not_fetched error) = inl refl
  on_render-Settles req p scratch h (w, incomplete error) = inl refl
  on_render-Settles req p scratch h (w, rendered g) =
      if-Settles h (g.unpushed == 0 && not (nonempty g.diff)) (drops host scratch h w _)
        (gate host req p scratch g h w) (inl refl) (gate-Settles req p scratch g h w)

  in_scratch-Settles :
      (req : PublishRequest) (p : Prepared) (h : Hub) (x : W × Attempt String)
      → Settles h (in_scratch host req p h x)
  unfolding in_scratch Settles
  in_scratch-Settles req p h (w, threw message) = tt
  in_scratch-Settles req p h (w, returned scratch) = on_render-Settles req p scratch h _

  on_prepared-Settles :
      (req : PublishRequest) (b : Broker W) (c : Checked Prepared)
      → Settles b.hub (on_prepared host req b c)
  unfolding on_prepared Settles
  on_prepared-Settles req b (stopped r) = inl refl
  on_prepared-Settles req b (cleared p) = in_scratch-Settles req p b.hub _

  -- Whenever `handleRequest` answers, the hub's last decision is the one from before the request, or, if
  -- it is an approval, an outcome is attached to it that tells what is answered: the pull request's
  -- url with an answer of success, and a failure with every other answer. Of requests that an
  -- exception ends it says nothing.
  pub handle_request-Settles :
      (req : PublishRequest) (b : Broker W) → Settles b.hub (handle_request host req b)
  unfolding handle_request
  handle_request-Settles req b = on_prepared-Settles req b (prepare host req b.world)
