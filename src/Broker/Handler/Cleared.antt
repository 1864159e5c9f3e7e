-- ===== src/Broker/Handler/Cleared.antt =====
-- What has been checked when `handleRequest` of broker/src/handler.ts pushes.
use muti_repo_workspace.Prelude.{
  String, true, false, none, some, not, ◌||◌, ◌++◌, nonempty, ◌≡◌, ◌≢◌, refl, ap, ◌∙◌, subst, arith,
}
use muti_repo_workspace.Text.{codes, codes_eq, codes_eq_sound, starts_with}
use muti_repo_workspace.Spine.Effects.{returned}
use muti_repo_workspace.Broker.Handler.{
  PublishRequest, Policy, Remote, Host, cleared, Prepared, resolve_target, is_routable, worktree_of,
}
use muti_repo_workspace.Broker.Handler.Checks.{
  Unpushed, cleared-Unpushed, cleared-injective, bind-Unpushed, then-Unpushed, require-Unpushed,
  require_text-Unpushed, guard-Unpushed, trusted-Unpushed, is_clean-Unpushed,
  loaded_policy-Unpushed, bind-cleared, then-cleared, require-cleared, require_text-cleared,
  guard-cleared, guard-unset, guard-same, str_differs, trusted-cleared, is_clean-cleared,
  loaded_policy-cleared,
}
use muti_repo_workspace.Broker.Handler.Publish.{
  admit_worktree, check_branch, is_ticket_branch, prepare, recheck,
}

is_ticket_branch-same :
    (req : PublishRequest) (cfg : Policy) (b : String)
    → is_ticket_branch req cfg b ≡ true
    → (t : String) → req.ticket ≡ some t
    → nonempty t ≡ true
    → codes b ≡ codes cfg.branch_prefix ++ codes t
is_ticket_branch-same req cfg b h t asked there =
    let here =
      subst
        (λ o.
          (elim o [
            | none ↦ true
            | some t ↦ not (nonempty t) || codes_eq (codes b) (codes cfg.branch_prefix ++ codes t)
          ])
          ≡ true)
        asked h in
    codes_eq_sound (codes b) (codes cfg.branch_prefix ++ codes t) (ground arith)

module _ {W : Type 0} (host : Host W) where
  -- What the checks before the gate have found.
  abbrev pub Ready : PublishRequest → Prepared → W → Type 0
  Ready req p w =
      (host.load_policy w ≡ returned p.policy)
      × (is_routable host req w ≡ true)
      × (worktree_of host req ≡ some p.worktree)
      × (host.worktree_exists p.worktree w ≡ true)
      × (host.scan_untrusted_local_config p.worktree w ≡ none)
      × (host.current_branch p.worktree w ≡ some p.branch)
      × (p.branch ≢ "HEAD")
      × ((t : String)
          → req.ticket ≡ some t
          → nonempty t ≡ true
          → codes p.branch ≡ codes p.policy.branch_prefix ++ codes t)
      × (p.branch ≡ req.branch)
      × (starts_with (codes p.branch) (codes p.policy.branch_prefix) ≡ true)
      × (host.is_dirty p.worktree w ≡ some false)
      × (resolve_target host p.worktree p.policy w ≡ cleared (p.target, p.url))
      × (host.head_sha p.worktree w ≡ some p.sha)
      × (host.coder_objects_dir p.worktree w ≡ some p.objects_dir)

  -- What the checks after the approval have found again.
  abbrev pub Still : PublishRequest → Prepared → W → Type 0
  Still req p w =
      (host.signal_aborted w ≡ false)
      × (is_routable host req w ≡ true)
      × (host.scan_untrusted_local_config p.worktree w ≡ none)
      × ((t : Remote) × (resolve_target host p.worktree p.policy w ≡ cleared (t, p.url)))
      × (host.head_sha p.worktree w ≡ some p.sha)

  resolve_target-Unpushed :
      (wt : String) (cfg : Policy) (w : W) → Unpushed (resolve_target host wt cfg w)
  unfolding resolve_target
  resolve_target-Unpushed wt cfg w = bind-Unpushed _ _ (require-Unpushed _ _ refl) λ url.
      bind-Unpushed _ _ (require-Unpushed _ _ refl) λ parsed.
        then-Unpushed _ _ (guard-Unpushed _ _ refl) (
          then-Unpushed _ _ (guard-Unpushed _ _ refl)
            (bind-Unpushed _ _ (require-Unpushed _ _ refl) λ canonical. cleared-Unpushed _))

  pub recheck-Unpushed :
      (req : PublishRequest) (p : Prepared) (w : W) → Unpushed (recheck host req p w)
  unfolding recheck
  recheck-Unpushed req p w = then-Unpushed _ _ (guard-Unpushed _ _ refl) (
      then-Unpushed _ _ (guard-Unpushed _ _ refl) (
        then-Unpushed _ _ (trusted-Unpushed _) (
          bind-Unpushed _ _ (resolve_target-Unpushed p.worktree p.policy w) λ t.
            then-Unpushed _ _ (guard-Unpushed _ _ refl)
              (bind-Unpushed _ _ (require-Unpushed _ _ refl) λ now. guard-Unpushed _ _ refl))))

  pub recheck-Still :
      (req : PublishRequest) (p : Prepared) (w : W)
      → recheck host req p w ≡ cleared tt
      → Still req p w
  unfolding recheck
  recheck-Still req p w out =
      let ((_, fresh), out1) = then-cleared _ _ tt out in
      let ((_, routed), out2) = then-cleared _ _ tt out1 in
      let ((_, safe), out3) = then-cleared _ _ tt out2 in
      let (t, target, out4) = bind-cleared _ _ tt out3 in
      let ((_, same), out5) = then-cleared _ _ tt out4 in
      let (now, head, out6) = bind-cleared _ _ tt out5 in
      let there : host.head_sha p.worktree w ≡ some p.sha =
        require-cleared _ _ now head ∙ ap some (guard-same now p.sha _ tt out6) in
      (
        guard-unset _ _ _ fresh,
        guard-cleared _ _ _ routed,
        trusted-cleared _ _ safe,
        (t.0, target ∙ ap (λ u. cleared (t.0, u)) (guard-same t.1 p.url _ _ same)),
        there,
      )

  admit_worktree-Unpushed : (req : PublishRequest) (w : W) → Unpushed (admit_worktree host req w)
  unfolding admit_worktree
  admit_worktree-Unpushed req w = bind-Unpushed _ _ (loaded_policy-Unpushed _) λ cfg.
      then-Unpushed _ _ (guard-Unpushed _ _ refl) (
        bind-Unpushed _ _ (require-Unpushed _ _ refl) λ wt.
          then-Unpushed _ _ (guard-Unpushed _ _ refl)
            (then-Unpushed _ _ (trusted-Unpushed _) (cleared-Unpushed _)))

  check_branch-Unpushed :
      (req : PublishRequest) (cfg : Policy) (wt : String) (w : W)
      → Unpushed (check_branch host req cfg wt w)
  unfolding check_branch
  check_branch-Unpushed req cfg wt w = bind-Unpushed _ _ (require_text-Unpushed _ _ refl) λ branch.
      then-Unpushed _ _ (guard-Unpushed _ _ refl) (
        then-Unpushed _ _ (guard-Unpushed _ _ refl) (
          then-Unpushed _ _ (guard-Unpushed _ _ refl) (
            then-Unpushed _ _ (guard-Unpushed _ _ refl)
              (then-Unpushed _ _ (is_clean-Unpushed _) (cleared-Unpushed _)))))

  pub prepare-Unpushed : (req : PublishRequest) (w : W) → Unpushed (prepare host req w)
  unfolding prepare
  prepare-Unpushed req w = bind-Unpushed _ _ (admit_worktree-Unpushed req w) λ x.
      bind-Unpushed _ _ (check_branch-Unpushed req x.0 x.1 w) λ branch.
        bind-Unpushed _ _ (resolve_target-Unpushed x.1 x.0 w) λ t.
          bind-Unpushed _ _ (require_text-Unpushed _ _ refl)
            λ sha. bind-Unpushed _ _ (require-Unpushed _ _ refl) λ objects. cleared-Unpushed _

  admit_worktree-cleared :
      (req : PublishRequest) (x : Policy × String) (w : W)
      → admit_worktree host req w ≡ cleared x
      → (host.load_policy w ≡ returned x.0)
        × (is_routable host req w ≡ true)
        × (worktree_of host req ≡ some x.1)
        × (host.worktree_exists x.1 w ≡ true)
        × (host.scan_untrusted_local_config x.1 w ≡ none)
  unfolding admit_worktree
  admit_worktree-cleared req x w out =
      let (cfg, loaded, out1) = bind-cleared _ _ x out in
      let ((_, routed), out2) = then-cleared _ _ x out1 in
      let (wt, found, out3) = bind-cleared _ _ x out2 in
      let ((_, exists), out4) = then-cleared _ _ x out3 in
      let ((_, safe), out5) = then-cleared _ _ x out4 in
      let same = cleared-injective (cfg, wt) x out5 in
      (
        loaded_policy-cleared _ _ loaded ∙ ap (λ y. returned y.0) same,
        guard-cleared _ _ _ routed,
        require-cleared _ _ _ found ∙ ap (λ y. some y.1) same,
        subst (λ y. host.worktree_exists y.1 w ≡ true) same (guard-cleared _ _ _ exists),
        subst (λ y. host.scan_untrusted_local_config y.1 w ≡ none) same (trusted-cleared _ _ safe),
      )

  check_branch-cleared :
      (req : PublishRequest) (cfg : Policy) (wt branch : String) (w : W)
      → check_branch host req cfg wt w ≡ cleared branch
      → (host.current_branch wt w ≡ some branch)
        × (branch ≢ "HEAD")
        × ((t : String)
            → req.ticket ≡ some t
            → nonempty t ≡ true
            → codes branch ≡ codes cfg.branch_prefix ++ codes t)
        × (branch ≡ req.branch)
        × (starts_with (codes branch) (codes cfg.branch_prefix) ≡ true)
        × (host.is_dirty wt w ≡ some false)
  unfolding check_branch
  check_branch-cleared req cfg wt branch w out =
      let (b, current, out1) = bind-cleared _ _ branch out in
      let ((_, attached), out2) = then-cleared _ _ branch out1 in
      let ((_, routed), out3) = then-cleared _ _ branch out2 in
      let ((_, asked), out4) = then-cleared _ _ branch out3 in
      let ((_, prefixed), out5) = then-cleared _ _ branch out4 in
      let ((_, clean), out6) = then-cleared _ _ branch out5 in
      let same = cleared-injective b branch out6 in
      (
        require_text-cleared _ _ _ current ∙ ap some same,
        subst (λ y. y ≢ "HEAD") same (str_differs _ _ (guard-unset _ _ _ attached)),
        subst
            (λ y.
              (t : String)
              → req.ticket ≡ some t
              → nonempty t ≡ true
              → codes y ≡ codes cfg.branch_prefix ++ codes t)
            same (is_ticket_branch-same req cfg b (guard-cleared _ _ _ routed)),
        subst (λ y. y ≡ req.branch) same (guard-same _ _ _ _ asked),
        subst (λ y. starts_with (codes y) (codes cfg.branch_prefix) ≡ true) same
            (guard-cleared _ _ _ prefixed),
        is_clean-cleared _ _ clean,
      )

  pub prepare-Ready :
      (req : PublishRequest) (p : Prepared) (w : W) → prepare host req w ≡ cleared p → Ready req p w
  unfolding prepare
  prepare-Ready req p w out =
      let (x, admitted, out1) = bind-cleared _ _ p out in
      let (branch, checked, out2) = bind-cleared _ _ p out1 in
      let (t, target, out3) = bind-cleared _ _ p out2 in
      let (sha, head, out4) = bind-cleared _ _ p out3 in
      let (objects, stored, out5) = bind-cleared _ _ p out4 in
      let (loaded, routed, found, exists, safe) = admit_worktree-cleared req x w admitted in
      let (current, attached, routes, asked, prefixed, clean) =
        check_branch-cleared req x.0 x.1 branch w checked in
      subst (λ q. Ready req q w) (cleared-injective _ p out5)
        (
          loaded,
          routed,
          found,
          exists,
          safe,
          current,
          attached,
          routes,
          asked,
          prefixed,
          clean,
          target,
          require_text-cleared _ _ _ head,
          require-cleared _ _ _ stored,
        )
