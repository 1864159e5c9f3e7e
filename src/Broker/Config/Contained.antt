-- ===== src/Broker/Config/Contained.antt =====
-- broker/src/config.ts and handler.ts: where the policy and the worktrees lie.
use muti_repo_workspace.Prelude.{
  ℕ, Bool, true, false, not, ◌||◌, Bool-cases, inl, inr, Option, none, some, List, [], ◌∷◌, ◌++◌,
  append_assoc, append-nil, ◌≢◌, ◌⊎◌, ◌≡◌, refl, arith, ap, sym, ◌∙◌, subst, if◌then◌else◌,
}
use muti_repo_workspace.Text.{codes, codes_eq, starts_with}
use muti_repo_workspace.Text.Slices.{ends_with}
use muti_repo_workspace.Spine.Effects.{Attempt, returned, threw}
use muti_repo_workspace.Broker.Config.{
  with_sep, some_hosts, Disk, Roots, is_inside, with_hosts, load_policy, is_below,
  resolve_routed_worktree,
}
use muti_repo_workspace.Broker.Config.Outside.{
  starts_with-append, IsApart, LiesAt, is_inside-IsApart,
}

starts_with-rest : (s t : List ℕ) → starts_with s t ≡ true → (rest : List ℕ) × (s ≡ t ++ rest)
unfolding starts_with
starts_with-rest s [] h = (s, refl)
starts_with-rest [] (b ∷ t) h = cc
starts_with-rest (a ∷ s) (b ∷ t) h =
    let (rest, same) = starts_with-rest s t (ground arith) in
    let first : a ≡ b = ground arith in (rest, ap (λ x. x ∷ s) first ∙ ap (λ r. b ∷ r) same)

starts_with_trans :
    (s t u : List ℕ) → starts_with s t ≡ true → starts_with t u ≡ true → starts_with s u ≡ true
starts_with_trans s t u h k =
    let (r, st) = starts_with-rest s t h in
    let (q, tu) = starts_with-rest t u k in
    subst (λ x. starts_with x u ≡ true) (sym (st ∙ ap (λ x. x ++ r) tu ∙ append_assoc u q r))
      (starts_with-append u (q ++ r))

with_sep-starts : (p : List ℕ) → starts_with (with_sep p) p ≡ true
with_sep-starts p = elim (Bool-cases (ends_with p (b'/' ∷ []))) [
  | inl e ↦ rw e (subst (λ x. starts_with x p ≡ true) (append-nil p) (starts_with-append p []))
  | inr e ↦ rw e (starts_with-append p (b'/' ∷ []))
]

chain_passed :
    (root apart same below : Bool) (x y : List ℕ)
    → (if root || not apart
        then none
        else if not same
        then none
        else if not below
        then none
        else some x)
      ≡ some y
    → (apart ≡ true) × (below ≡ true) × (x ≡ y)
chain_passed false true true true x y e = (refl, refl, ground arith)
chain_passed false true true false x y e = cc
chain_passed false true false below x y e = cc
chain_passed false false same below x y e = cc
chain_passed true apart same below x y e = cc

is_below-starts : (p root : List ℕ) → is_below p root ≡ true → starts_with p root ≡ true
is_below-starts p root h =
    starts_with_trans p (with_sep root) root (ground arith) (with_sep-starts root)

some_hosts-some :
    {P : Type 0} (hosts : List (List ℕ)) (p policy : P)
    → some_hosts hosts p ≡ returned policy
    → (p ≡ policy) × (hosts ≢ [])
some_hosts-some [] p policy e = cc
some_hosts-some (h ∷ hs) p policy e = (ground arith, (λ none_left. cc))

module _ {W P : Type 0} (disk : Disk W P) (roots : Roots) where
  -- A worktree that is routed by a ticket lies below the root of the tasks, if `path.resolve` of a path
  -- that it has itself given and of `repositories` puts `repositories` behind that path.
  pub resolve_routed_worktree-below :
      (ticket repo wt : List ℕ)
      → ((p q : List ℕ)
          → disk.join (disk.join p q) (codes "repositories")
            ≡ with_sep (disk.join p q) ++ codes "repositories")
      → resolve_routed_worktree disk roots ticket repo ≡ some wt
      → starts_with wt (with_sep roots.tasks_root) ≡ true
  unfolding resolve_routed_worktree
  resolve_routed_worktree-below ticket repo wt behind e =
      let ticket_root = disk.join roots.tasks_root ticket in
      let repos_root = disk.join ticket_root (codes "repositories") in
      let (apart, below, same) =
        chain_passed (codes_eq ticket_root (disk.resolve roots.tasks_root))
          (starts_with ticket_root (with_sep roots.tasks_root))
          (codes_eq (disk.dirname ticket_root) (disk.resolve roots.tasks_root))
          (is_below (disk.join repos_root repo) repos_root) (disk.join repos_root repo) wt e in
      let inner : starts_with wt repos_root ≡ true =
        subst (λ x. starts_with x repos_root ≡ true) same
          (is_below-starts (disk.join repos_root repo) repos_root below) in
      let outer : starts_with repos_root ticket_root ≡ true =
        subst (λ x. starts_with x ticket_root ≡ true) (sym (behind roots.tasks_root ticket))
          (starts_with_trans (with_sep ticket_root ++ codes "repositories") (with_sep ticket_root)
            ticket_root (starts_with-append (with_sep ticket_root) (codes "repositories"))
            (with_sep-starts ticket_root)) in
      starts_with_trans wt ticket_root (with_sep roots.tasks_root)
        (starts_with_trans wt repos_root ticket_root inner outer) apart

  with_hosts-some :
      (a : Attempt P) (policy : P)
      → with_hosts disk roots a ≡ returned policy
      → (a ≡ returned policy) × (disk.push_hosts policy ≢ [])
  with_hosts-some (threw message) policy e = cc
  with_hosts-some (returned p) policy e =
      let (same, hosts) = some_hosts-some (disk.push_hosts p) p policy e in
      (ap returned same, subst (λ q. disk.push_hosts q ≢ []) same hosts)

  trusted :
      (inside inside' : Bool) (a : Attempt P) (policy : P)
      → (if inside || inside'
          then threw "BROKER_POLICY_FILE resolves inside the coder-writable tree (fail-closed)"
          else with_hosts disk roots a)
        ≡ returned policy
      → (inside ≡ false) × (inside' ≡ false) × (a ≡ returned policy) × (disk.push_hosts policy ≢ [])
  trusted false false a policy e =
      let (read, hosts) = with_hosts-some a policy e in (refl, refl, read, hosts)
  trusted false true a policy e = cc
  trusted true inside' a policy e = cc

  -- The file of a policy is set, is read as that policy, and wherever it and a tree that the coder
  -- writes to really lie, it lies outside that tree.
  abbrev pub Trusted : W → P → Type 0
  Trusted w policy =
      (file : List ℕ) × (roots.policy_file ≡ some file)
      × ((r q : List ℕ)
          → LiesAt disk roots w file r
          → LiesAt disk roots w roots.worktrees_root q ⊎ LiesAt disk roots w roots.coder_tree q
          → IsApart r q)
      × (disk.read_policy file w ≡ returned policy)
      × (disk.push_hosts policy ≢ [])

  kept_outside :
      (file : List ℕ) (w : W)
      → is_inside disk roots file roots.worktrees_root w ≡ false
      → is_inside disk roots file roots.coder_tree w ≡ false
      → (r q : List ℕ) → LiesAt disk roots w file r
      → LiesAt disk roots w roots.worktrees_root q ⊎ LiesAt disk roots w roots.coder_tree q
      → IsApart r q
  kept_outside file w a b r q lies (inl at) =
      is_inside-IsApart disk roots w file roots.worktrees_root r q a lies at
  kept_outside file w a b r q lies (inr at) =
      is_inside-IsApart disk roots w file roots.coder_tree r q b lies at

  -- A policy that was loaded was read from a file that is set, and whose real path is neither the real
  -- path of the worktrees root or of the coder's tree nor below one of them, and it allows some host.
  pub load_policy-Trusted :
      (w : W) (policy : P) → load_policy disk roots w ≡ returned policy → Trusted w policy
  unfolding load_policy
  load_policy-Trusted w policy e = go roots.policy_file refl e
    where
      go :
          (f : Option (List ℕ))
          → roots.policy_file ≡ f
          → (elim f [
            | none ↦ threw "BROKER_POLICY_FILE is not set (fail-closed)"
            | some file ↦
                if is_inside disk roots file roots.worktrees_root w
                  || is_inside disk roots file roots.coder_tree w
                then threw
                    "BROKER_POLICY_FILE resolves inside the coder-writable tree (fail-closed)"
                else with_hosts disk roots (disk.read_policy file w)
          ])
            ≡ returned policy
          → Trusted w policy
      go none set e = cc
      go (some file) set e =
          let (apart, apart', read, hosts) =
            trusted (is_inside disk roots file roots.worktrees_root w)
              (is_inside disk roots file roots.coder_tree w) (disk.read_policy file w) policy e in
          (file, set, kept_outside file w apart apart', read, hosts)
