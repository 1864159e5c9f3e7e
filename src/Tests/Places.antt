-- ===== src/Tests/Places.antt =====
-- Runs of broker/src/config.ts and of the worktrees of broker/src/handler.ts, on a disk with one
-- registered ticket; a policy is the list of its hosts.
use muti_repo_workspace.Prelude.{
  true, none, some, List, [], ◌∷◌, ◌++◌, ◌≡◌, ◌↔◌, if◌then◌else◌, refl, ℕ,
}
use muti_repo_workspace.Text.{codes, codes_eq, starts_with}
use muti_repo_workspace.Spine.Effects.{returned}
use muti_repo_workspace.Broker.Config.{
  is_safe_ticket, ticket_from_worktrees_root, with_sep, Disk, Roots, is_ticket_registered,
  load_policy, resolve_routed_worktree,
}
use muti_repo_workspace.Broker.Config.Tickets.{
  segments, ticket_path, ticket_from_worktrees_root_iff, is_ticket_registered-Listed, IsSegment,
  Lists,
}
use muti_repo_workspace.Broker.Config.Outside.{IsApart}
use muti_repo_workspace.Broker.Config.Contained.{
  Trusted, resolve_routed_worktree-below, load_policy-Trusted,
}

abbrev disk : Disk ℕ (List (List ℕ))
disk = record {
  resolve = λ p. p;
  join = λ p name. with_sep p ++ name;
  dirname = λ p. codes "/w/tasks";
  realpath = λ p w.
      if codes_eq p (codes "/etc/policy.json") then some (codes "/srv/policy.json") else none;
  read_dir = λ dir w. returned (codes "T-1" ∷ []);
  is_file = λ dir name w. returned true;
  read_policy = λ file w. returned (codes "github.com" ∷ []);
  push_hosts = λ policy. policy;
}

abbrev roots : Roots
roots = record {
  worktrees_root = codes "/w/tasks/T-1/repositories";
  coder_tree = codes "/w";
  tasks_root = codes "/w/tasks";
  tickets_dir = codes "/etc/tickets";
  policy_file = some (codes "/etc/policy.json");
}

abbrev app_path : List ℕ
app_path = codes "/w/tasks/T-1/repositories/app"

ticket_from_worktrees_root_iff_example :
    (ticket_from_worktrees_root (codes "/w/tasks/T-1/repositories") ≡ some (codes "T-1")) ↔ (
      (before : List (List ℕ)) × (segments (codes "/w/tasks/T-1/repositories")
        ≡ before ++ ticket_path (codes "T-1"))
      × (is_safe_ticket (codes "T-1") ≡ true))
ticket_from_worktrees_root_iff_example =
    ticket_from_worktrees_root_iff (codes "/w/tasks/T-1/repositories") (codes "T-1")

finds_ticket : ticket_from_worktrees_root (codes "/w/tasks/T-1/repositories") ≡ some (codes "T-1")
unfolding ticket_from_worktrees_root
finds_ticket = refl

registered : is_ticket_registered disk roots (codes "T-1") 0 ≡ true
unfolding is_ticket_registered
registered = refl

is_ticket_registered-Listed_example :
    IsSegment (codes "T-1")
    × IsApart (codes "/etc/tickets") roots.tasks_root
    × IsApart (codes "/etc/tickets") roots.worktrees_root
    × Lists disk roots.tickets_dir (codes "T-1") 0
is_ticket_registered-Listed_example =
    is_ticket_registered-Listed disk roots (codes "T-1") 0 registered

routed : resolve_routed_worktree disk roots (codes "T-1") (codes "app") ≡ some app_path
unfolding resolve_routed_worktree
routed = refl

resolve_routed_worktree-below_example : starts_with app_path (with_sep roots.tasks_root) ≡ true
resolve_routed_worktree-below_example =
    resolve_routed_worktree-below disk roots (codes "T-1") (codes "app") app_path (λ p q. refl)
      routed

loaded : load_policy disk roots 0 ≡ returned (codes "github.com" ∷ [])
unfolding load_policy
loaded = refl

load_policy-Trusted_example : Trusted disk roots 0 (codes "github.com" ∷ [])
load_policy-Trusted_example = load_policy-Trusted disk roots 0 (codes "github.com" ∷ []) loaded
