-- ===== src/Spine/Ledger.antt =====
-- harness/src/spine/ledger.ts: the per-repo verdicts, the budgets, the publish gate and the
-- persisted snapshot. A method that mutates the ledger returns the new one. The text of a refusal
-- is a constructor that holds the values which the text shows.
pub mod Store
pub mod Entries
pub mod Gate
pub mod Trace
pub mod Provenance
pub mod Restore
use muti_repo_workspace.Contracts.{Plan, Review, is_approve}
use muti_repo_workspace.Prelude.{
  ℕ, ◌+◌, String, Bool, Option, none, some, List, [], ◌∷◌, leb, str_eq, if◌then◌else◌, Dict, lookup,
  put, update, map,
}

pub record TestGreen : Type 0 where
  pub sha : String

pub record ReviewApproved : Type 0 where
  pub sha : String
  pub review : Review

pub record Published : Type 0 where
  pub sha : String
  pub pr_url : Option String

pub record RepoLedgerEntry : Type 0 where
  pub repo_dir : String
  pub base_sha : String
  pub head_sha : String
  pub plan : Option Plan
  pub test_green : Option TestGreen
  pub review_approved : Option ReviewApproved
  pub published : Option Published

pub record LedgerRepoInit : Type 0 where
  pub repo_dir : String
  pub base_sha : String

pub record LedgerBudgets : Type 0 where
  pub max_actions : Option ℕ
  pub max_worker_runs : Option ℕ

-- The reasons of `LedgerCheck`.
pub data Reason : Type 0 where
  actions_exhausted worker_runs_exhausted : ℕ → ℕ → Reason
  unknown_repo no_plan no_tests no_review : String → Reason
  stale_tests stale_review : String → String → Reason

pub data LedgerCheck : Type 0 where
  ok : LedgerCheck
  refused : Reason → LedgerCheck

pub record SpineLedger : Type 0 where
  pub ticket : String
  pub max_actions : ℕ
  pub max_worker_runs : ℕ
  pub default_dir : Option String
  pub repos : Dict RepoLedgerEntry
  pub actions_used : ℕ
  pub worker_runs_used : ℕ
  pub instruction_text : Option String

-- An environment variable, after `Number`.
pub data NumberText : Type 0 where
  unset not_integer negative : NumberText
  natural : ℕ → NumberText

unfoldable pub parse_non_negative_int : NumberText → ℕ → ℕ
parse_non_negative_int (natural n) def = n
parse_non_negative_int _ def = def

-- The two environment variables that the module reads.
pub record SpineEnv : Type 0 where
  pub actions_var : NumberText
  pub worker_runs_var : NumberText

unfoldable pub mrw_spine_max_actions : SpineEnv → ℕ
unfolding parse_non_negative_int
mrw_spine_max_actions env = parse_non_negative_int env.actions_var 100

unfoldable pub mrw_spine_max_worker_runs : SpineEnv → ℕ
unfolding parse_non_negative_int
mrw_spine_max_worker_runs env = parse_non_negative_int env.worker_runs_var 12

-- `a ?? d`.
abbrev pub or_default {ℓ} : {A : Type ℓ} → Option A → A → A
or_default none d = d
or_default (some a) d = a

abbrev pub fresh_entry : LedgerRepoInit → RepoLedgerEntry
fresh_entry init = record {
  repo_dir = init.repo_dir;
  base_sha = init.base_sha;
  head_sha = init.base_sha;
  plan = none;
  test_green = none;
  review_approved = none;
  published = none;
}

-- `new Map(entries.map(…))`: a later entry of the same name replaces the earlier one.
unfoldable pub seed : Dict LedgerRepoInit → Dict RepoLedgerEntry → Dict RepoLedgerEntry
seed [] m = m
seed ((name, init) ∷ rest) m = seed rest (put name (fresh_entry init) m)

unfoldable pub new_ledger :
    SpineEnv → String → Dict LedgerRepoInit → LedgerBudgets → Option String → SpineLedger
unfolding seed mrw_spine_max_actions mrw_spine_max_worker_runs
new_ledger env ticket repos budgets default_dir = record {
  ticket = ticket;
  max_actions = or_default budgets.max_actions (mrw_spine_max_actions env);
  max_worker_runs = or_default budgets.max_worker_runs (mrw_spine_max_worker_runs env);
  default_dir = default_dir;
  repos = seed repos [];
  actions_used = 0;
  worker_runs_used = 0;
  instruction_text = none;
}

unfoldable pub get_repo : String → SpineLedger → Option RepoLedgerEntry
get_repo name l = lookup name l.repos

unfoldable pub repo_names : SpineLedger → List String
repo_names l = map (λ e. e.0) l.repos

unfoldable pub consume_action : SpineLedger → SpineLedger × LedgerCheck
consume_action l =
    if leb l.max_actions l.actions_used
    then (l, refused (actions_exhausted l.actions_used l.max_actions))
    else (record l { actions_used = l.actions_used + 1 }, ok)

unfoldable pub consume_worker_run : SpineLedger → SpineLedger × LedgerCheck
consume_worker_run l =
    if leb l.max_worker_runs l.worker_runs_used
    then (l, refused (worker_runs_exhausted l.worker_runs_used l.max_worker_runs))
    else (record l { worker_runs_used = l.worker_runs_used + 1 }, ok)

-- Each `record*` method looks the entry up, returns on `undefined`, and mutates it in place.
abbrev pub on_entry : String → (RepoLedgerEntry → RepoLedgerEntry) → SpineLedger → SpineLedger
on_entry repo f l = record l { repos = update repo f l.repos }

abbrev pub moved_to : String → RepoLedgerEntry → RepoLedgerEntry
moved_to sha e =
    if str_eq e.head_sha sha
    then record e { head_sha = sha }
    else record e { test_green = none; review_approved = none; head_sha = sha }

unfoldable pub record_worker_run : String → Bool → String → SpineLedger → SpineLedger
record_worker_run repo committed head_sha l = on_entry repo (moved_to head_sha) l

abbrev pub tested_at : Bool → String → RepoLedgerEntry → RepoLedgerEntry
tested_at pass at_sha e = record e {
  test_green = if pass then some (record { sha = at_sha }) else none;
}

unfoldable pub record_tests : String → Bool → String → SpineLedger → SpineLedger
record_tests repo pass at_sha l = on_entry repo (tested_at pass at_sha) l

abbrev pub reviewed_at : Review → String → RepoLedgerEntry → RepoLedgerEntry
reviewed_at review at_sha e = record e {
  review_approved =
      if is_approve review.verdict then some (record { sha = at_sha; review = review }) else none;
}

unfoldable pub record_review : String → Review → String → SpineLedger → SpineLedger
record_review repo review at_sha l = on_entry repo (reviewed_at review at_sha) l

abbrev pub planned : Plan → RepoLedgerEntry → RepoLedgerEntry
planned plan e = record e { plan = some plan }

unfoldable pub record_plan : String → Plan → SpineLedger → SpineLedger
record_plan repo plan l = on_entry repo (planned plan) l

abbrev pub published_as : String → Option String → RepoLedgerEntry → RepoLedgerEntry
published_as sha pr_url e = record e { published = some (record { sha = sha; pr_url = pr_url }) }

unfoldable pub record_published : String → String → Option String → SpineLedger → SpineLedger
record_published repo sha pr_url l = on_entry repo (published_as sha pr_url) l

unfoldable pub set_instruction : String → SpineLedger → SpineLedger
set_instruction text l = record l { instruction_text = some text }

-- The checks of `canPublish` on an entry, in the code's order.
unfoldable pub check_review : String → RepoLedgerEntry → Option ReviewApproved → LedgerCheck
check_review repo e none = refused (no_review repo)
check_review repo e (some r) =
    if str_eq r.sha e.head_sha then ok else refused (stale_review r.sha e.head_sha)

unfoldable pub check_tests : String → RepoLedgerEntry → Option TestGreen → LedgerCheck
unfolding check_review
check_tests repo e none = refused (no_tests repo)
check_tests repo e (some t) =
    if str_eq t.sha e.head_sha
    then check_review repo e e.review_approved
    else refused (stale_tests t.sha e.head_sha)

unfoldable pub check_plan : String → RepoLedgerEntry → Option Plan → LedgerCheck
unfolding check_tests
check_plan repo e none = refused (no_plan repo)
check_plan repo e (some p) = check_tests repo e e.test_green

unfoldable pub check_entry : String → Option RepoLedgerEntry → LedgerCheck
unfolding check_plan
check_entry repo none = refused (unknown_repo repo)
check_entry repo (some e) = check_plan repo e e.plan

unfoldable pub can_publish : String → SpineLedger → LedgerCheck
unfolding check_entry
can_publish repo l = check_entry repo (lookup repo l.repos)
