-- ===== src/Tests/Requests.antt =====
-- Requests to broker/src/handler.ts: the outside is a number of steps, git answers what the policy allows and
-- the human submits the shown sha.
use muti_repo_workspace.Prelude.{ℕ, ◌+◌, true, false, none, some, [], ◌∷◌, ◌≡◌, refl}
use muti_repo_workspace.Spine.Effects.{returned}
use muti_repo_workspace.Broker.Hub.Turns.{approve_sent, decide}
use muti_repo_workspace.Broker.Handler.{
  PublishRequest, PublishResponse, published, Policy, Remote, RunResult, rendered, Host, Prepared,
  ◌>>=◌, ◌>>◌, guard, require, require_text, resolve_target,
}
use muti_repo_workspace.Broker.Handler.Cleared.{Ready}
use muti_repo_workspace.Broker.Handler.Pushed.{Approved, handle_request-Approved}
use muti_repo_workspace.Broker.Handler.Reported.{Settles, handle_request-Settles}
use muti_repo_workspace.Broker.Handler.Publish.{
  Broker, responded, handle_request, after_approval, on_prepared, prepare, admit_worktree,
  loaded_policy, trusted, check_branch, is_clean, in_scratch, on_render, act_on, finish, gate,
  push_and_open, on_push, on_pr, recheck, reports,
}
use muti_repo_workspace.Text.{codes_eq, starts_with, trim}
use muti_repo_workspace.Tests.Approvals.{an_idle_hub}

abbrev a_policy : Policy
a_policy = record {
  allowed_push_orgs = "acme" ∷ [];
  allowed_push_hosts = "github.com" ∷ [];
  branch_prefix = "mrw/";
}

abbrev a_remote : Remote
a_remote = record { host = "github.com"; org = "acme"; repo = "api" }

abbrev a_success : RunResult
a_success = record { ok = true; status = some 0; stdout = ""; stderr = ""; truncated = false }

abbrev a_host : Host ℕ
a_host = record {
  load_policy = λ w. returned a_policy;
  is_ticket_registered = λ ticket w. true;
  ticket_from_worktrees_root = none;
  resolve_worktree = λ repo. some "/wt/api";
  resolve_routed_worktree = λ ticket repo. some "/wt/api";
  worktree_exists = λ wt w. true;
  scan_untrusted_local_config = λ wt w. none;
  current_branch = λ wt w. some "mrw/T-1";
  is_dirty = λ wt w. some false;
  remote_url = λ wt w. some "git@github.com:acme/api.git";
  parse_remote = λ url. some a_remote;
  canonical_https_url = λ r. some "https://github.com/acme/api.git";
  head_sha = λ wt w. some "0123456789abcdef";
  coder_objects_dir = λ wt w. some "/wt/api/.git/objects";
  short_sha = λ sha. "0123456789ab";
  signal_aborted = λ w. false;
  create_scratch_repo = λ w. (w + 1, returned "/tmp/scratch");
  remove_scratch = λ dir w. w + 1;
  render_ground_truth = λ p w.
      (w + 1, rendered (record { unpushed = 1; commit_list = ""; diff_stat = ""; diff = "+" }));
  consult_reviewer = λ diff req ticket w. (w, none);
  diff_touches_tests = λ diff. false;
  human = λ view w. record {
    id = "id";
    now = 7;
    turns = (approve_sent "id" "0123456789ab" ∷ []) ∷ [];
    after = w + 1;
  };
  push_approved_sha = λ p w. (w + 1, returned a_success);
  gh_pr_create = λ p w. (w + 1, returned (a_success, some "https://github.com/acme/api/pull/1"));
}

abbrev a_request : PublishRequest
a_request = record {
  repo = "api";
  branch = "mrw/T-1";
  title = "title";
  body = "";
  ticket = some "T-1";
}

abbrev a_broker : Broker ℕ
a_broker = record { hub = an_idle_hub; world = 0 }

abbrev the_answer : PublishResponse
the_answer = published "0123456789abcdef" "mrw/T-1" (some "https://github.com/acme/api/pull/1")

publishes : (handle_request a_host a_request a_broker).1 ≡ responded the_answer
unfolding handle_request on_prepared prepare ◌>>=◌ admit_worktree loaded_policy ◌>>◌ guard require
    trusted check_branch require_text codes_eq starts_with is_clean resolve_target in_scratch
    on_render act_on after_approval finish gate push_and_open on_push on_pr recheck reports decide
    trim
publishes = refl

handle_request-Approved_example :
    (p : Prepared) × Ready a_host a_request p 0 × Approved a_host a_request p an_idle_hub
handle_request-Approved_example =
    handle_request-Approved a_host a_request a_broker the_answer publishes refl

handle_request-Settles_example : Settles an_idle_hub (handle_request a_host a_request a_broker)
handle_request-Settles_example = handle_request-Settles a_host a_request a_broker
