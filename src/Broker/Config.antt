-- ===== src/Broker/Config.antt =====
-- broker/src/config.ts and the resolution of worktrees of broker/src/handler.ts, on texts as code units
-- and with `/` as the separator of paths. Node's `path` and `fs` are parameters.
pub mod Outside
pub mod Tickets
pub mod Contained
use muti_repo_workspace.Prelude.{
  ℕ, Bool, true, false, not, ◌&&◌, ◌||◌, Option, none, some, List, [], ◌∷◌, ◌++◌, all, any, leb,
  length, ◌==◌, if◌then◌else◌,
}
use muti_repo_workspace.Text.{codes, codes_eq, starts_with}
use muti_repo_workspace.Text.Slices.{split_on, drop_empty, ends_with, or_else}
use muti_repo_workspace.Spine.Effects.{Attempt, returned, threw}
use muti_repo_workspace.Broker.Git.Urls.{is_name_unit, has_dots}

-- `SAFE_TICKET`
unfoldable pub is_safe_ticket : List ℕ → Bool
is_safe_ticket s = all is_name_unit s && (leb 1 (length s) && leb (length s) 100)

-- One round of the loop, at a segment and those behind it.
unfoldable pub ticket_at : List ℕ → List (List ℕ) → Option (List ℕ)
unfolding is_safe_ticket codes_eq
ticket_at seg (ticket ∷ last ∷ []) =
    if codes_eq seg (codes "tasks")
      && (codes_eq last (codes "repositories") && is_safe_ticket ticket)
    then some ticket
    else none
ticket_at seg _ = none

-- The loop, which starts at the last segment.
unfoldable pub ticket_in : List (List ℕ) → Option (List ℕ)
unfolding ticket_at or_else
ticket_in [] = none
ticket_in (seg ∷ rest) = or_else (ticket_in rest) (ticket_at seg rest)

-- On the value of `WORKTREES_ROOT`.
unfoldable pub ticket_from_worktrees_root : List ℕ → Option (List ℕ)
unfolding ticket_in split_on drop_empty
ticket_from_worktrees_root root = ticket_in (drop_empty (split_on b'/' root))

abbrev pub with_sep : List ℕ → List ℕ
with_sep p = if ends_with p (b'/' ∷ []) then p else p ++ (b'/' ∷ [])

-- The text is the path or lies below it.
unfoldable pub is_within : List ℕ → List ℕ → Bool
unfolding starts_with codes_eq ends_with
is_within p root = codes_eq p root || starts_with p (with_sep root)

-- `path.resolve` of one and of two paths, `path.dirname`, `fs.realpathSync`, and the calls of `fs` on
-- the registry and on the policy, where `read_policy` reads, parses and validates the file.
pub record Disk (W P : Type 0) : Type 0 where
  pub resolve : List ℕ → List ℕ
  pub join : List ℕ → List ℕ → List ℕ
  pub dirname : List ℕ → List ℕ
  pub realpath : List ℕ → W → Option (List ℕ)
  pub read_dir : List ℕ → W → Attempt (List (List ℕ))
  pub is_file : List ℕ → List ℕ → W → Attempt Bool
  pub read_policy : List ℕ → W → Attempt P
  pub push_hosts : P → List (List ℕ)

-- The constants that come from the environment.
pub record Roots : Type 0 where
  pub worktrees_root : List ℕ
  pub coder_tree : List ℕ
  pub tasks_root : List ℕ
  pub tickets_dir : List ℕ
  pub policy_file : Option (List ℕ)

abbrev is_true : Attempt Bool → Bool
is_true (returned b) = b
is_true (threw message) = false

abbrev pub is_below : List ℕ → List ℕ → Bool
is_below p root = not (codes_eq p root) && starts_with p (with_sep root)

abbrev pub some_hosts : {P : Type 0} → List (List ℕ) → P → Attempt P
some_hosts [] policy = threw "policy has empty allowed_push_hosts (fail-closed)"
some_hosts (h ∷ hs) policy = returned policy

module _ {W P : Type 0} (disk : Disk W P) (roots : Roots) where
  unfoldable pub tickets_dir_is_coder_writable : List ℕ → Bool
  unfolding is_within
  tickets_dir_is_coder_writable dir =
      is_within (disk.resolve dir) roots.tasks_root
      || is_within (disk.resolve dir) roots.worktrees_root

  -- The exact entry of the registry, which must be a regular file; an error reads as not registered.
  abbrev pub is_entry : List ℕ → List ℕ → W → Attempt (List (List ℕ)) → Bool
  is_entry ticket dir w (threw message) = false
  is_entry ticket dir w (returned entries) =
      any (λ e. codes_eq e ticket) entries && is_true (disk.is_file dir ticket w)

  unfoldable pub is_ticket_registered : List ℕ → W → Bool
  unfolding is_safe_ticket codes_eq has_dots tickets_dir_is_coder_writable
  is_ticket_registered ticket w =
      if not (is_safe_ticket ticket)
        || (codes_eq ticket (codes ".") || (codes_eq ticket (codes "..") || has_dots ticket))
      then false
      else if tickets_dir_is_coder_writable roots.tickets_dir
      then false
      else is_entry ticket roots.tickets_dir w (disk.read_dir roots.tickets_dir w)

  abbrev pub real_or_resolved : List ℕ → W → List ℕ
  real_or_resolved p w = elim (disk.realpath p w) [ none ↦ disk.resolve p | some r ↦ r ]

  unfoldable pub is_inside : List ℕ → List ℕ → W → Bool
  unfolding is_within
  is_inside child parent w = is_within (real_or_resolved child w) (real_or_resolved parent w)

  abbrev pub with_hosts : Attempt P → Attempt P
  with_hosts (threw message) = threw message
  with_hosts (returned policy) = some_hosts (disk.push_hosts policy) policy

  unfoldable pub load_policy : W → Attempt P
  unfolding is_inside
  load_policy w = elim roots.policy_file [
    | none ↦ threw "BROKER_POLICY_FILE is not set (fail-closed)"
    | some file ↦
        if is_inside file roots.worktrees_root w || is_inside file roots.coder_tree w
        then threw "BROKER_POLICY_FILE resolves inside the coder-writable tree (fail-closed)"
        else with_hosts (disk.read_policy file w)
  ]

  -- `resolveWorktree` and `resolveRoutedWorktree` of handler.ts.
  unfoldable pub resolve_worktree : List ℕ → Option (List ℕ)
  unfolding is_within
  resolve_worktree repo =
      let wt = disk.join roots.worktrees_root repo in
      if not (is_within wt roots.worktrees_root) then none else some wt

  unfoldable pub resolve_routed_worktree : List ℕ → List ℕ → Option (List ℕ)
  unfolding starts_with codes_eq ends_with
  resolve_routed_worktree ticket repo =
      let root = roots.tasks_root in
      let ticket_root = disk.join root ticket in
      let repos_root = disk.join ticket_root (codes "repositories") in
      let wt = disk.join repos_root repo in
      if codes_eq ticket_root (disk.resolve root) || not (starts_with ticket_root (with_sep root))
      then none
      else if not (codes_eq (disk.dirname ticket_root) (disk.resolve root))
      then none
      else if not (is_below wt repos_root)
      then none
      else some wt
