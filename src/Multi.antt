-- ===== src/Multi.antt =====
-- harness/src/multi/types.ts, state.ts and config.ts: the data of the driver that takes a ticket
-- through several repos. Time stamps are left out.
pub mod Actions
pub mod Driver
pub mod Triples
pub mod Kept
pub mod Recorded
pub mod Told
pub mod Exit
pub mod Returns
pub mod Progress
use Prim.Native.String
use muti_repo_workspace.Prelude.{
  String, Bool, true, false, not, ◌&&◌, Option, none, some, List, [], ◌∷◌, Dict, lookup, put, any,
  str_eq, nonempty, if◌then◌else◌,
}
use muti_repo_workspace.Contracts.{Plan}
use muti_repo_workspace.Spine.Effects.{Attempt, returned, threw}
use muti_repo_workspace.Orchestrator.{
  FailReason, incomplete_diff, not_clean, publish_threw, OrchestratorResult, published_stub,
  plan_declined, publish_declined, Run, finished, rejected,
}

pub record RepoConfig : Type 0 where
  pub name : String
  pub url : Option String
  pub desc : Option String
  pub repo_type : Option String
  pub sparse_paths : Option (Dict (List String))

pub record WorkspaceConfig : Type 0 where
  pub branch_prefix : String
  pub default_purpose : String
  pub ticket_id_pattern : Option String

pub data RepoOutcome : Type 0 where
  published declined not_ready failed pending : RepoOutcome

pub record RepoState : Type 0 where
  pub outcome : RepoOutcome
  pub sha : Option String
  pub pr_url : Option String
  pub reason : Option String
  pub branch : Option String
  pub worktree : Option String

pub record TicketState : Type 0 where
  pub ticket : String
  pub instruction : String
  pub branch : String
  pub purpose : String
  pub repos : Dict RepoState

pub record DriverArgs : Type 0 where
  pub ticket : String
  pub instruction : String
  pub repos : List String
  pub purpose : String

-- A repo that needs work, with its worktree, plan and base.
pub record WorkItem : Type 0 where
  pub name : String
  pub repo_dir : String
  pub plan : Plan
  pub base_sha : String

abbrev pub is_published : RepoOutcome → Bool
is_published published = true
is_published _ = false

abbrev pub is_declined : RepoOutcome → Bool
is_declined declined = true
is_declined _ = false

abbrev is_published_entry : String × RepoState → Bool
is_published_entry (name, r) = is_published r.outcome

-- `state.repos[name]?.outcome === "published"`
unfoldable pub was_published : TicketState → String → Bool
unfolding lookup
was_published state name = elim (lookup name state.repos) [
  | none ↦ false
  | some r ↦ is_published r.outcome
]

-- `resolveResumedInstruction`: the instruction, and whether the given one was adopted.
unfoldable pub resolve_resumed_instruction : TicketState → String → String × Bool
resolve_resumed_instruction state given =
    if nonempty given
      && (not (str_eq given state.instruction) && not (any is_published_entry state.repos))
    then (given, true)
    else (state.instruction, false)

-- `new Map(all.map((r) => [r.name, r]))`: of two repos with one name the last.
unfoldable pub by_name : Dict RepoConfig → List RepoConfig → Dict RepoConfig
unfolding put
by_name m [] = m
by_name m (r ∷ rs) = by_name (put r.name r m) rs

-- The configs of the names, or a refusal where one is unknown.
unfoldable pub find_repos : Dict RepoConfig → List String → Attempt (List RepoConfig)
unfolding lookup
find_repos m [] = returned []
find_repos m (n ∷ ns) = found (lookup n m) (find_repos m ns)
  where
    found : Option RepoConfig → Attempt (List RepoConfig) → Attempt (List RepoConfig)
    found (some r) (returned rs) = returned (r ∷ rs)
    found (some r) (threw message) = threw message
    found none _ = threw "unknown repo(s) in --repos"

unfoldable pub select_repos : List RepoConfig → List String → Attempt (List RepoConfig)
unfolding by_name find_repos
select_repos repos [] = returned repos
select_repos repos (n ∷ ns) = find_repos (by_name [] repos) (n ∷ ns)

-- The outcome, sha, pull request and reason of a result.
abbrev pub fail_reason : FailReason → String
fail_reason incomplete_diff = "incomplete commit-range diff (fail-closed)"
fail_reason not_clean = "not clean after the allowed fix attempts"
fail_reason (publish_threw message) = String.◌++◌ "publish failed: " message

abbrev patch :
    RepoOutcome → Option String → Option String → Option String → String → String → RepoState
patch outcome sha pr_url reason branch worktree = record {
  outcome = outcome;
  sha = sha;
  pr_url = pr_url;
  reason = reason;
  branch = some branch;
  worktree = some worktree;
}

unfoldable pub result_state : Run → String → String → RepoState
result_state (finished (OrchestratorResult.published sha pr_url)) =
    patch published (some sha) pr_url none
result_state (finished published_stub) =
    patch published none none (some "stub (BROKER_SOCKET unset) — nothing pushed")
result_state (finished plan_declined) = patch declined none none (some "plan declined")
result_state (finished publish_declined) = patch declined none none (some "publish declined")
result_state (finished OrchestratorResult.not_ready) =
    patch not_ready none none (some "plan.ready_to_implement=false")
result_state (finished (OrchestratorResult.failed reason)) =
    patch failed none none (some (fail_reason reason))
result_state (rejected message) =
    patch failed none none (some (String.◌++◌ "driver caught: " message))
