-- ===== src/Tests/Gits.antt =====
-- Runs of broker/src/git.ts: the outside is the number of calls, and git answers each of them.
use muti_repo_workspace.Prelude.{
  ℕ, ◌+◌, true, false, none, some, List, [], ◌∷◌, ◌++◌, ◌≡◌, refl, ◌↔◌, if◌then◌else◌,
}
use muti_repo_workspace.Text.{codes}
use muti_repo_workspace.Text.Numbers.{parse_int, pos}
use muti_repo_workspace.Broker.Git.Urls.{
  RemoteParts, canonical_https_url, canonical_https_url-injective,
}
use muti_repo_workspace.Broker.Git.Rendering.{
  GitCall, ls_remote, fetch, verify_base, log, count, diff_stat, diff, GitResult, RenderedTruth,
  RenderTarget, gives, render_ground_truth, is_empty,
}
use muti_repo_workspace.Broker.Git.Complete.{
  Asks, base_calls, range_calls, render_ground_truth-Asks,
}

abbrev output : GitCall → List ℕ
output (ls_remote url branch) = codes "abcdef0 refs/heads/feat"
output (fetch url branch) = []
output verify_base = codes "abcdef0"
output (log range) = codes "1234567 more"
output (count range) = codes "1"
output (diff_stat base sha) = codes "x | 1 +"
output (diff base sha) = codes "+more"

abbrev answers : GitCall → ℕ → GitResult × ℕ
answers call n = (record { ok = true; stdout = output call; truncated = false }, n + 1)

abbrev render_target : RenderTarget
render_target = record {
  sha = codes "1234567";
  url = codes "https://h/o/r.git";
  branch = codes "feat";
}

abbrev rendered_truth : RenderedTruth
rendered_truth = record {
  remote_tip = some (codes "abcdef0");
  unpushed = some (pos 1);
  commit_list = codes "1234567 more";
  diff_stat = codes "x | 1 +";
  diff = codes "+more";
}

renders : render_ground_truth answers render_target 0 ≡ (gives rendered_truth, 7)
unfolding render_ground_truth
renders = refl

render_ground_truth-Asks_example :
    (heads : List ℕ) × (fetched : List ℕ) × (number : List ℕ) × Asks answers
      ((ls_remote render_target.url render_target.branch, heads)
        ∷ (base_calls render_target rendered_truth.remote_tip fetched
            ++ range_calls render_target rendered_truth number))
      0
      7
    × ((rendered_truth.remote_tip ≡ none) ↔ (heads ≡ []))
    × (rendered_truth.unpushed ≡ parse_int (if is_empty number then codes "0" else number))
render_ground_truth-Asks_example =
    render_ground_truth-Asks answers render_target rendered_truth 0 7 renders

abbrev a_remote : RemoteParts
a_remote = record { host = codes "github.com"; org = codes "acme"; repo = codes "app" }

canonical : canonical_https_url a_remote ≡ some (codes "https://github.com/acme/app.git")
unfolding canonical_https_url
canonical = refl

canonical_https_url-injective_example :
    (a_remote.host ≡ a_remote.host)
    × (a_remote.org ≡ a_remote.org)
    × (a_remote.repo ≡ a_remote.repo)
canonical_https_url-injective_example =
    canonical_https_url-injective a_remote a_remote (codes "https://github.com/acme/app.git")
      canonical canonical
