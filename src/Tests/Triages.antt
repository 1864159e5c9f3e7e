-- ===== src/Tests/Triages.antt =====
-- A run of the filter of harness/src/triage.ts.
use muti_repo_workspace.Prelude.{String, ◌&&◌, [], ◌∷◌, List, ◌≡◌, refl}
use muti_repo_workspace.Triage.{
  has, filter_unseen, filter_to_available_repos, IsDistinct, IsSublist,
  filter_to_available_repos-has,
}

abbrev named : List String
named = "web" ∷ "ghost" ∷ "api" ∷ "web" ∷ []

abbrev there : List String
there = "api" ∷ "web" ∷ "docs" ∷ []

filters : filter_to_available_repos named there ≡ "web" ∷ "api" ∷ []
unfolding filter_to_available_repos filter_unseen
filters = refl

filter_to_available_repos-has_example :
    ((x : String) → has x (filter_to_available_repos named there) ≡ has x named && has x there)
    × IsDistinct (filter_to_available_repos named there)
    × IsSublist (filter_to_available_repos named there) named
filter_to_available_repos-has_example = filter_to_available_repos-has named there
