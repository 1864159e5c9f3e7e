-- ===== src/Broker/Handler/Publish.antt =====
-- broker/src/handler.ts, `handleRequest`: the checks before the gate, the gate, the checks after it,
-- and the push. An error text stands for the source's message, without the values it quotes.
use Prim.Native.String
use muti_repo_workspace.Prelude.{
  ◌&&◌, ◌||◌, not, String, Bool, true, false, Option, none, some, ◌++◌, ◌==◌, str_eq, nonempty,
  if◌then◌else◌,
}
use muti_repo_workspace.Text.{codes, codes_eq, starts_with}
use muti_repo_workspace.Spine.Effects.{Attempt, returned, threw}
use muti_repo_workspace.Broker.Hub.{
  Hub, ViewWire, PublishOutcome, succeeded, failed, DecideResult, waiting, rejected, decided,
  report_outcome,
}
use muti_repo_workspace.Broker.Hub.Turns.{decide}
use muti_repo_workspace.Broker.Handler.{
  PublishRequest, config_missing, ticket_not_registered, repo_not_allowed, worktree_missing,
  untrusted_config, detached_head, branch_mismatch, branch_not_allowed, dirty_worktree,
  host_not_allowed, fetch_failed, render_incomplete, nothing_to_publish, request_declined,
  request_canceled, sha_changed, push_failed, pr_failed, PublishResponse, published, refused,
  Policy, GroundTruth, Render, RunResult, rendered, not_fetched, incomplete, RenderParams, PrArgs,
  Host, Checked, stopped, cleared, fail, ◌>>=◌, ◌>>◌, guard, require, require_text, Prepared,
  resolve_target, is_routable, worktree_of,
}

-- How a request ends: with an answer, with an exception, or still at the gate.
pub data Handled : Type 0 where
  responded : PublishResponse → Handled
  raised : String → Handled
  at_gate : Handled

pub record Broker (W : Type 0) : Type 0 where
  pub hub : Hub
  pub world : W

unfoldable pub loaded_policy : Attempt Policy → Checked Policy
loaded_policy (returned cfg) = cleared cfg
loaded_policy (threw message) = stopped (fail config_missing message)

unfoldable pub trusted : Option String → Checked {0} Unit
trusted none = cleared tt
trusted (some key) =
    stopped (fail untrusted_config (String.◌++◌ "coder-writable git config is not trusted: " key))

abbrev pub is_ticket_branch : PublishRequest → Policy → String → Bool
is_ticket_branch req cfg branch = elim req.ticket [
  | none ↦ true
  | some t ↦ not (nonempty t) || codes_eq (codes branch) (codes cfg.branch_prefix ++ codes t)
]

unfoldable pub is_clean : Option Bool → Checked {0} Unit
is_clean none = stopped (fail worktree_missing "cannot read git status")
is_clean (some true) = stopped (fail dirty_worktree "worktree has uncommitted or untracked changes")
is_clean (some false) = cleared tt

-- The request's ticket, or the one of the broker's own root.
abbrev pub attributed : Option String → Option String → Option String
attributed none own = own
attributed (some t) own = some t

module _ {W : Type 0} (host : Host W) where
  -- Steps 2 to 4: the policy, the ticket, the worktree and its git config.
  unfoldable pub admit_worktree : PublishRequest → W → Checked (Policy × String)
  admit_worktree req w = do
    cfg ← loaded_policy (host.load_policy w)
    guard (is_routable host req w) (fail ticket_not_registered "ticket is not registered")
    wt ←
        require (worktree_of host req)
          (fail repo_not_allowed "repo resolves outside the worktrees root")
    guard (host.worktree_exists wt w) (fail worktree_missing "no worktree")
    trusted (host.scan_untrusted_local_config wt w)
    cleared (cfg, wt)

  -- Step 5: the branch that is checked out, and that nothing is uncommitted.
  unfoldable pub check_branch : PublishRequest → Policy → String → W → Checked String
  check_branch req cfg wt w = do
    branch ← require_text (host.current_branch wt w) (fail worktree_missing "cannot resolve HEAD")
    guard (not (str_eq branch "HEAD")) (fail detached_head "worktree is in detached HEAD state")
    guard (is_ticket_branch req cfg branch)
        (fail branch_mismatch "worktree branch is not the ticket's branch")
    guard (str_eq branch req.branch) (fail branch_mismatch "request branch != worktree branch")
    guard (starts_with (codes branch) (codes cfg.branch_prefix))
        (fail branch_not_allowed "branch does not match branch_prefix")
    is_clean (host.is_dirty wt w)
    cleared branch

  -- Steps 2 to 6, on a request that has validated.
  unfoldable pub prepare : PublishRequest → W → Checked Prepared
  prepare req w = do
    (cfg, wt) ← admit_worktree req w
    branch ← check_branch req cfg wt w
    (target, url) ← resolve_target host wt cfg w
    sha ← require_text (host.head_sha wt w) (fail worktree_missing "cannot resolve HEAD sha")
    objects_dir ←
        require (host.coder_objects_dir wt w)
          (fail worktree_missing "cannot locate the object store")
    cleared (record {
      worktree = wt;
      branch = branch;
      policy = cfg;
      target = target;
      url = url;
      sha = sha;
      objects_dir = objects_dir;
    })

  -- Step 9, on what the outside is after the approval.
  unfoldable pub recheck : PublishRequest → Prepared → W → Checked {0} Unit
  recheck req p w = do
    guard (not (host.signal_aborted w))
        (refused request_canceled "aborted after approval, before push" (some p.sha))
    guard (is_routable host req w)
        (fail ticket_not_registered "ticket is no longer registered; aborting")
    trusted (host.scan_untrusted_local_config p.worktree w)
    (target, url) ← resolve_target host p.worktree p.policy w
    guard (str_eq url p.url) (fail host_not_allowed "push target changed after approval; aborting")
    let moved = refused sha_changed "worktree HEAD moved after approval; aborting" (some p.sha)
    now ← require (host.head_sha p.worktree w) moved
    guard (str_eq now p.sha) moved

  abbrev pub render_params : Prepared → String → RenderParams
  render_params p scratch = record {
    scratch = scratch;
    objects_dir = p.objects_dir;
    sha = p.sha;
    url = p.url;
    branch = p.branch;
  }

  abbrev pub pr_args : PublishRequest → Prepared → PrArgs
  pr_args req p = record {
    host = p.target.host;
    org = p.target.org;
    repo = p.target.repo;
    title = req.title;
    body = req.body;
    branch = p.branch;
  }

  unfoldable pub reports : PublishOutcome → Hub → W → PublishResponse → Broker W × Handled
  reports result h w r = (record { hub = report_outcome result h; world = w }, responded r)

  -- What `gh pr create` answered; `spawnSync` throws on a title or a body that holds a NUL.
  unfoldable pub on_pr :
      Prepared → Hub → W × Attempt (RunResult × Option String) → Broker W × Handled
  unfolding reports
  on_pr p h (w, threw message) = (record { hub = h; world = w }, raised message)
  on_pr p h (w, returned (pr, url)) =
      if not pr.ok
      then reports (failed "push succeeded but gh pr create failed") h w
          (refused pr_failed "push succeeded but gh pr create failed" (some p.sha))
      else reports (succeeded url) h w (published p.sha p.branch url)

  unfoldable pub on_push :
      PublishRequest → Prepared → Hub → W × Attempt RunResult → Broker W × Handled
  unfolding reports on_pr
  on_push req p h (w, threw message) = (record { hub = h; world = w }, raised message)
  on_push req p h (w, returned push) =
      if not push.ok
      then reports (failed "git push failed") h w
          (refused push_failed "git push failed" (some p.sha))
      else on_pr p h (host.gh_pr_create (pr_args req p) w)

  -- Step 10.
  unfoldable pub push_and_open : PublishRequest → Prepared → String → Hub → W → Broker W × Handled
  unfolding on_push
  push_and_open req p scratch h w =
      on_push req p h (host.push_approved_sha (render_params p scratch) w)

  abbrev pub error_of : PublishResponse → String
  error_of (published sha branch url) = ""
  error_of (refused code error sha) = error

  unfoldable pub finish :
      PublishRequest → Prepared → String → Hub → W → Checked {0} Unit → Broker W × Handled
  finish req p scratch h w (stopped r) = reports (failed (error_of r)) h w r
  finish req p scratch h w (cleared u) = push_and_open req p scratch h w

  -- Steps 9 and 10.
  unfoldable pub after_approval : PublishRequest → Prepared → String → Hub → W → Broker W × Handled
  after_approval req p scratch h w = finish req p scratch h w (recheck req p w)

  abbrev pub view_of : PublishRequest → Prepared → GroundTruth → Option String → ViewWire
  view_of req p g verdict = record {
    repo = req.repo;
    ticket = attributed req.ticket host.ticket_from_worktrees_root;
    branch = p.branch;
    head_sha = p.sha;
    title = req.title;
    body = req.body;
    host = p.target.host;
    org = p.target.org;
    target_repo = p.target.repo;
    url = p.url;
    commit_count = g.unpushed;
    commit_list = g.commit_list;
    diff_stat = g.diff_stat;
    diff = g.diff;
    reviewer_verdict = verdict;
    test_caveat = host.diff_touches_tests g.diff;
    short_sha = host.short_sha p.sha;
  }

  -- What `decide` answered.
  unfoldable pub act_on :
      PublishRequest → Prepared → String → Hub × DecideResult → W → Broker W × Handled
  act_on req p scratch (h, waiting) w = (record { hub = h; world = w }, at_gate)
  act_on req p scratch (h, rejected) w = (
    record { hub = h; world = host.remove_scratch scratch w },
    responded (refused request_canceled "approval canceled" (some p.sha)),
  )
  act_on req p scratch (h, decided false c) w = (
    record { hub = h; world = host.remove_scratch scratch w },
    responded (refused request_declined "human declined at the broker gate" (some p.sha)),
  )
  act_on req p scratch (h, decided true c) w =
      let (b, out) = after_approval req p scratch h w in
      (record b { world = host.remove_scratch scratch b.world }, out)

  -- Steps 7.5 to 10, on the ground truth that is rendered.
  unfoldable pub gate :
      PublishRequest → Prepared → String → GroundTruth → Hub → W → Broker W × Handled
  gate req p scratch g h w =
      let ticket = attributed req.ticket host.ticket_from_worktrees_root in
      let (w', verdict) = host.consult_reviewer g.diff req ticket w in
      let view = view_of req p g verdict in
      let person = host.human view w' in
      let d = decide person.id person.now view (host.signal_aborted w') person.turns h in
      act_on req p scratch d person.after

  abbrev pub drops : String → Hub → W → PublishResponse → Broker W × Handled
  drops scratch h w r = (record { hub = h; world = host.remove_scratch scratch w }, responded r)

  unfoldable pub on_render :
      PublishRequest → Prepared → String → Hub → W × Render → Broker W × Handled
  on_render req p scratch h (w, not_fetched error) = drops scratch h w (fail fetch_failed error)
  on_render req p scratch h (w, incomplete error) = drops scratch h w (fail render_incomplete error)
  on_render req p scratch h (w, rendered g) =
      if g.unpushed == 0 && not (nonempty g.diff)
      then drops scratch h w
          (fail nothing_to_publish "no commits ahead of the remote — nothing to publish")
      else gate req p scratch g h w

  -- Step 7 and what follows; the scratch repository is created outside the `try`.
  unfoldable pub in_scratch :
      PublishRequest → Prepared → Hub → W × Attempt String → Broker W × Handled
  in_scratch req p h (w, threw message) = (record { hub = h; world = w }, raised message)
  in_scratch req p h (w, returned scratch) =
      on_render req p scratch h (host.render_ground_truth (render_params p scratch) w)

  unfoldable pub on_prepared : PublishRequest → Broker W → Checked Prepared → Broker W × Handled
  on_prepared req b (stopped r) = (b, responded r)
  on_prepared req b (cleared p) = in_scratch req p b.hub (host.create_scratch_repo b.world)

  -- `handleRequest` on a request that has validated.
  unfoldable pub handle_request : PublishRequest → Broker W → Broker W × Handled
  handle_request req b = on_prepared req b (prepare req b.world)
