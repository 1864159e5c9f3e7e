-- ===== src/Broker/Handler/Pushed.antt =====
-- A push of broker/src/handler.ts over the whole request: the checks before the gate, the human's
-- decision, and the checks after it.
use muti_repo_workspace.Prelude.{
  String, true, false, Option, ◌≡◌, refl, ap, sym, ◌∙◌, ◌⊎◌, inl, inr, arith, Bool-cases, ◌==◌,
  ◌&&◌, not, nonempty,
}
use muti_repo_workspace.Spine.Effects.{Attempt, returned, threw}
use muti_repo_workspace.Broker.Hub.{Hub, DecideResult, waiting, rejected, decided, ApprovalChannel}
use muti_repo_workspace.Broker.Hub.Approval.{Decided, decide-Decided}
use muti_repo_workspace.Broker.Handler.{
  PublishRequest, PublishResponse, GroundTruth, Render, rendered, not_fetched, incomplete, Host,
  Checked, stopped, cleared, Prepared,
}
use muti_repo_workspace.Broker.Handler.Checks.{is_pushed}
use muti_repo_workspace.Broker.Handler.Cleared.{
  Ready, Still, recheck-Still, recheck-Unpushed, prepare-Ready, prepare-Unpushed,
}
use muti_repo_workspace.Broker.Handler.Publish.{
  responded, Broker, prepare, recheck, after_approval, act_on, gate, in_scratch, on_render,
  on_prepared, finish, reports, handle_request, view_of, attributed, render_params,
}

Checked-cases :
    (c : Checked {0} Unit) → (c ≡ cleared tt) ⊎ ((r : PublishResponse) × (c ≡ stopped r))
Checked-cases (stopped r) = inr (r, refl)
Checked-cases (cleared u) = inl refl

responded-injective : (r s : PublishResponse) → responded r ≡ responded s → r ≡ s
responded-injective r s h = ground arith

module _ {W : Type 0} (host : Host W) where
  after_approval-Still :
      (req : PublishRequest) (p : Prepared) (scratch : String) (h : Hub) (w : W)
      (r : PublishResponse)
      → (after_approval host req p scratch h w).1 ≡ responded r
      → is_pushed r ≡ true
      → Still host req p w
  unfolding after_approval finish reports
  after_approval-Still req p scratch h w r out pushed =
      elim (Checked-cases (recheck host req p w)) [
        | inl ok ↦ recheck-Still host req p w ok
        | inr (r', stop) ↦
            let same : r' ≡ r =
              responded-injective r' r
                (sym (ap (λ c. (finish host req p scratch h w c).1) stop) ∙ out) in
            let quiet = recheck-Unpushed host req p w r' stop in
            cc (pushed, ap is_pushed same, quiet)
      ]

  act_on-Still :
      (req : PublishRequest) (p : Prepared) (scratch : String) (d : Hub × DecideResult) (w : W)
      (r : PublishResponse)
      → (act_on host req p scratch d w).1 ≡ responded r
      → is_pushed r ≡ true
      → ((c : ApprovalChannel) × (d.1 ≡ decided true c)) × Still host req p w
  unfolding act_on
  act_on-Still req p scratch (h, waiting) w r out pushed = cc
  act_on-Still req p scratch (h, rejected) w r out pushed = ground arith
  act_on-Still req p scratch (h, decided false c) w r out pushed = ground arith
  act_on-Still req p scratch (h, decided true c) w r out pushed =
      ((c, refl), after_approval-Still req p scratch h w r out pushed)

  -- What a human was shown of `g` and approved, and what held then.
  abbrev Consented : PublishRequest → Prepared → GroundTruth → Hub → Type 0
  Consented req p g h =
      (verdict : Option String) × (w : W) × (let view = view_of host req p g verdict in
        let person = host.human view w in
        ((c : ApprovalChannel) × Decided person.id view person.turns true c)
        × Still host req p person.after)

  -- A push that the checks `p` allow: what git rendered for the sha and the target holds a commit or a
  -- change, and a human approved it.
  abbrev pub Approved : PublishRequest → Prepared → Hub → Type 0
  Approved req p h =
      (scratch : String) × (g : GroundTruth) × (w : W) × (w' : W) × (host.render_ground_truth
          (render_params host p scratch) w
        ≡ (w', rendered g))
      × (g.unpushed == 0 && not (nonempty g.diff) ≡ false)
      × Consented req p g h

  gate-Consented :
      (req : PublishRequest) (p : Prepared) (scratch : String) (g : GroundTruth) (h : Hub) (w : W)
      (r : PublishResponse)
      → (gate host req p scratch g h w).1 ≡ responded r
      → is_pushed r ≡ true
      → Consented req p g h
  unfolding gate
  gate-Consented req p scratch g h w r out pushed =
      let ticket = attributed req.ticket host.ticket_from_worktrees_root in
      let (w', verdict) = host.consult_reviewer g.diff req ticket w in
      let view = view_of host req p g verdict in
      let person = host.human view w' in
      let ((c, approved), still) = act_on-Still req p scratch _ _ r out pushed in
      let (_, how_decided) =
        decide-Decided person.id person.now view (host.signal_aborted w') person.turns h true c
          approved in
      (verdict, w', ((c, how_decided), still))

  on_render-Approved :
      (req : PublishRequest) (p : Prepared) (scratch : String) (h : Hub) (w0 : W) (x : W × Render)
      (r : PublishResponse)
      → host.render_ground_truth (render_params host p scratch) w0 ≡ x
      → (on_render host req p scratch h x).1 ≡ responded r
      → is_pushed r ≡ true
      → Approved req p h
  unfolding on_render
  on_render-Approved req p scratch h w0 (w, not_fetched error) r drawn out pushed = ground arith
  on_render-Approved req p scratch h w0 (w, incomplete error) r drawn out pushed = ground arith
  on_render-Approved req p scratch h w0 (w, rendered g) r drawn out pushed =
      elim (Bool-cases (g.unpushed == 0 && not (nonempty g.diff))) [
        | inl empty ↦ ground arith
        | inr something ↦ (
          scratch,
          g,
          w0,
          w,
          drawn,
          something,
          gate-Consented req p scratch g h w r (ground arith) pushed,
        )
      ]

  in_scratch-Approved :
      (req : PublishRequest) (p : Prepared) (h : Hub) (x : W × Attempt String) (r : PublishResponse)
      → (in_scratch host req p h x).1 ≡ responded r
      → is_pushed r ≡ true
      → Approved req p h
  unfolding in_scratch
  in_scratch-Approved req p h (w, threw message) r out pushed = ground arith
  in_scratch-Approved req p h (w, returned scratch) r out pushed =
      on_render-Approved req p scratch h w _ r refl out pushed

  on_prepared-Approved :
      (req : PublishRequest) (b : Broker W) (c : Checked Prepared) (r : PublishResponse)
      → prepare host req b.world ≡ c
      → (on_prepared host req b c).1 ≡ responded r
      → is_pushed r ≡ true
      → (p : Prepared) × Ready host req p b.world × Approved req p b.hub
  unfolding on_prepared
  on_prepared-Approved req b (stopped r') r checked out pushed =
      let quiet = prepare-Unpushed host req b.world r' checked in ground arith
  on_prepared-Approved req b (cleared p) r checked out pushed =
      (p, prepare-Ready host req p b.world checked, in_scratch-Approved req p b.hub _ r out pushed)

  -- When `handleRequest` answers that it published, or that the push or the pull request failed, every
  -- check before the gate had passed: the policy loaded, a given ticket is registered, the worktree
  -- exists with an inert git config, its branch is not detached, is the one of a given ticket and the
  -- requested one under the policy's prefix, nothing is uncommitted, the policy allows the target,
  -- there are a head and an object store, and what git rendered for them holds a commit or a change;
  -- a human was shown that head and that target, and approved in the terminal or by the socket with
  -- the shown short sha, no abort before; and at the push the signal was not aborted, a given ticket
  -- still registered, the config still inert, the target url the shown one and the head the shown sha.
  pub handle_request-Approved :
      (req : PublishRequest) (b : Broker W) (r : PublishResponse)
      → (handle_request host req b).1 ≡ responded r
      → is_pushed r ≡ true
      → (p : Prepared) × Ready host req p b.world × Approved req p b.hub
  unfolding handle_request
  handle_request-Approved req b r out pushed =
      on_prepared-Approved req b (prepare host req b.world) r refl out pushed
