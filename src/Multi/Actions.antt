-- ===== src/Multi/Actions.antt =====
-- What harness/src/multi/driver.ts calls, over a state `W` of the outside, and the chain of its
-- calls, which an exception ends. The state file of the ticket is kept beside the outside.
use muti_repo_workspace.Prelude.{ℕ, String, Bool, Option, some, List}
use muti_repo_workspace.Contracts.{Plan}
use muti_repo_workspace.Spine.Effects.{Attempt, returned, threw}
use muti_repo_workspace.Orchestrator.{Pipeline}
use muti_repo_workspace.Multi.{RepoConfig, WorkspaceConfig, TicketState}

pub record Setup : Type 0 where
  pub repo_dir : String
  pub base_sha : String

-- The disk's config files, JavaScript's `RegExp`, the worktrees, the model's plan step, the terminal,
-- and the pipeline of a repo by its directory and label.
pub record Host (W : Type 0) : Type 0 where
  pub load_workspace : W → Attempt WorkspaceConfig
  pub load_repos : W → Attempt (List RepoConfig)
  pub matches : String → String → Attempt Bool
  pub exec_setup_worktree : RepoConfig → String → String → String → W → Attempt Setup × W
  pub run_plan : String → String → W → Attempt Plan × W
  pub human_approval : ℕ → W → Attempt Bool × W
  pub write_state : TicketState → W → Attempt (Unit {0}) × W
  pub pipeline : String → String → Pipeline W

-- The outside, and what `loadState` finds.
pub record Machine (W : Type 0) : Type 0 where
  pub world : W
  pub saved : Option TicketState

abbrev pub Action : Type 0 → Type 0 → Type 0
Action W A = Machine W → Attempt A × Machine W

module _ {W A B : Type 0} where
  abbrev pub after : Attempt A × Machine W → (A → Action W B) → Attempt B × Machine W
  after (returned a, s) f = f a s
  after (threw message, s) f = (threw message, s)

  unfoldable pub ◌>>=◌ : Action W A → (A → Action W B) → Action W B
  (m >>= f) s = after (m s) f

  infixl 1 ◌>>=◌

module _ {W A : Type 0} where
  unfoldable pub pure : A → Action W A
  pure a s = (returned a, s)

  -- A call that only reads.
  unfoldable pub reads : (W → Attempt A) → Action W A
  reads f s = (f s.world, s)

  unfoldable pub calls : (W → Attempt A × W) → Action W A
  calls f s = ((f s.world).0, record s { world = (f s.world).1 })

-- `loadState`
unfoldable pub load_state : {W : Type 0} → Action W (Option TicketState)
load_state s = (returned s.saved, s)

module _ {W : Type 0} (host : Host W) where
  -- The state file is renamed into place, so a write that throws leaves the one that was there.
  abbrev pub written :
      TicketState → Attempt (Unit {0}) × W → Machine W → Attempt (Unit {0}) × Machine W
  written state (returned _, w) s = (returned tt, record { world = w; saved = some state })
  written state (threw message, w) s = (threw message, record s { world = w })

  unfoldable pub save_state : TicketState → Action W (Unit {0})
  save_state state s = written state (host.write_state state s.world) s
