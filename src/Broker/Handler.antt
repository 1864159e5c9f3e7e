-- ===== src/Broker/Handler.antt =====
-- broker/src/handler.ts: the decision procedure for one publish request up to the human gate, with
-- the types of broker/src/types.ts, config.ts and git.ts that it uses. What git, gh, the disk and the
-- reviewer answer is read through `Host`, over a state `W` of the outside: the functions of git.ts,
-- config.ts and reviewer.ts that end in a process, the disk or a socket.
pub mod Publish
pub mod Checks
pub mod Cleared
pub mod Pushed
pub mod Reported
use Prim.Native.String
use muti_repo_workspace.Prelude.{
  ℕ, ◌&&◌, ◌||◌, not, String, Bool, true, false, Option, none, some, List, [], any, str_eq,
  nonempty, if◌then◌else◌,
}
use muti_repo_workspace.Text.{codes, starts_with}
use muti_repo_workspace.Spine.Effects.{Attempt, returned, threw}
use muti_repo_workspace.Broker.Hub.Turns.{Event}
use muti_repo_workspace.Broker.Hub.{ViewWire}

pub record PublishRequest : Type 0 where
  pub repo : String
  pub branch : String
  pub title : String
  pub body : String
  pub ticket : Option String

pub data PublishErrorCode : Type 0 where
  invalid_request config_missing ticket_not_registered repo_not_allowed : PublishErrorCode
  worktree_missing untrusted_config detached_head branch_mismatch : PublishErrorCode
  branch_not_allowed dirty_worktree remote_unparseable host_not_allowed : PublishErrorCode
  org_not_allowed fetch_failed render_incomplete nothing_to_publish : PublishErrorCode
  request_declined request_canceled sha_changed push_failed pr_failed busy : PublishErrorCode

pub data PublishResponse : Type 0 where
  published : String → String → Option String → PublishResponse
  refused : PublishErrorCode → String → Option String → PublishResponse

pub record Policy : Type 0 where
  pub allowed_push_orgs : List String
  pub allowed_push_hosts : List String
  pub branch_prefix : String

pub record Remote : Type 0 where
  pub host : String
  pub org : String
  pub repo : String

pub record RunResult : Type 0 where
  pub ok : Bool
  pub status : Option ℕ
  pub stdout : String
  pub stderr : String
  pub truncated : Bool

-- The rendered case of `Render` of git.ts, without the remote tip, which nothing reads.
pub record GroundTruth : Type 0 where
  pub unpushed : ℕ
  pub commit_list : String
  pub diff_stat : String
  pub diff : String

pub data Render : Type 0 where
  rendered : GroundTruth → Render
  not_fetched incomplete : String → Render

-- `RenderParams` and `PrArgs` of git.ts, without the token and the optional fields that are not set.
pub record RenderParams : Type 0 where
  pub scratch : String
  pub objects_dir : String
  pub sha : String
  pub url : String
  pub branch : String

pub record PrArgs : Type 0 where
  pub host : String
  pub org : String
  pub repo : String
  pub title : String
  pub body : String
  pub branch : String

-- While the human decides, the outside moves on, and the events of each turn reach the hub.
pub record Human (W : Type 0) : Type 0 where
  pub id : String
  pub now : ℕ
  pub turns : List (List Event)
  pub after : W

pub record Host (W : Type 0) : Type 0 where
  pub load_policy : W → Attempt Policy
  pub is_ticket_registered : String → W → Bool
  pub ticket_from_worktrees_root : Option String
  pub resolve_worktree : String → Option String
  pub resolve_routed_worktree : String → String → Option String
  pub worktree_exists : String → W → Bool
  pub scan_untrusted_local_config : String → W → Option String
  pub current_branch : String → W → Option String
  pub is_dirty : String → W → Option Bool
  pub remote_url : String → W → Option String
  pub parse_remote : String → Option Remote
  pub canonical_https_url : Remote → Option String
  pub head_sha : String → W → Option String
  pub coder_objects_dir : String → W → Option String
  pub short_sha : String → String
  pub signal_aborted : W → Bool
  pub create_scratch_repo : W → W × Attempt String
  pub remove_scratch : String → W → W
  pub render_ground_truth : RenderParams → W → W × Render
  pub consult_reviewer : String → PublishRequest → Option String → W → W × Option String
  pub diff_touches_tests : String → Bool
  pub human : ViewWire → W → Human W
  pub push_approved_sha : RenderParams → W → W × Attempt RunResult
  pub gh_pr_create : PrArgs → W → W × Attempt (RunResult × Option String)

pub data Checked {ℓ} (A : Type ℓ) : Type ℓ where
  stopped : PublishResponse → Checked A
  cleared : A → Checked A

abbrev pub fail : PublishErrorCode → String → PublishResponse
fail code error = refused code error none

infixl 5 ◌>>=◌ ◌>>◌
unfoldable pub ◌>>=◌ {ℓ κ} : {A : Type ℓ} {B : Type κ} → Checked A → (A → Checked B) → Checked B
stopped r >>= f = stopped r
cleared a >>= f = f a

unfoldable pub ◌>>◌ {ℓ κ} : {A : Type ℓ} {B : Type κ} → Checked A → Checked B → Checked B
stopped r >> c = stopped r
cleared a >> c = c

unfoldable pub guard : Bool → PublishResponse → Checked {0} Unit
guard true r = cleared tt
guard false r = stopped r

unfoldable pub require {ℓ} : {A : Type ℓ} → Option A → PublishResponse → Checked A
require none r = stopped r
require (some a) r = cleared a

-- A null or an empty text is refused alike.
unfoldable pub require_text : Option String → PublishResponse → Checked String
require_text none r = stopped r
require_text (some s) r = if nonempty s then cleared s else stopped r

abbrev pub is_allowed_org : String → List String → Bool
is_allowed_org org [] = true
is_allowed_org org orgs = any (str_eq org) orgs

-- What is settled before anything is fetched.
pub record Prepared : Type 0 where
  pub worktree : String
  pub branch : String
  pub policy : Policy
  pub target : Remote
  pub url : String
  pub sha : String
  pub objects_dir : String

module _ {W : Type 0} (host : Host W) where
  unfoldable pub resolve_target : String → Policy → W → Checked (Remote × String)
  resolve_target wt cfg w = do
    url ←
        require (host.remote_url wt w)
          (fail remote_unparseable "origin remote URL is unset or unreadable")
    parsed ←
        require (host.parse_remote url)
          (fail remote_unparseable "cannot parse host/org/repo from origin URL")
    guard (any (str_eq parsed.host) cfg.allowed_push_hosts)
        (fail host_not_allowed "push host not in allowed_push_hosts")
    guard (is_allowed_org parsed.org cfg.allowed_push_orgs)
        (fail org_not_allowed "push org not in allowed_push_orgs")
    canonical ←
        require (host.canonical_https_url parsed)
          (fail remote_unparseable "origin components did not form a valid https URL")
    cleared (parsed, canonical)

  -- `!req.ticket || isTicketRegistered(req.ticket)`: an empty ticket counts as absent.
  abbrev pub is_routable : PublishRequest → W → Bool
  is_routable req w = elim req.ticket [
    | none ↦ true
    | some t ↦ not (nonempty t) || host.is_ticket_registered t w
  ]

  abbrev pub worktree_of : PublishRequest → Option String
  worktree_of req = elim req.ticket [
    | none ↦ host.resolve_worktree req.repo
    | some t ↦
        if nonempty t
        then host.resolve_routed_worktree t req.repo
        else host.resolve_worktree req.repo
  ]
