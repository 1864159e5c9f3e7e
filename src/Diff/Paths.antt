-- ===== src/Diff/Paths.antt =====
-- serve/src/diff.ts, lines 142 to 192: the paths of a `diff --git` line and of `---` and `+++` lines.
use muti_repo_workspace.Prelude.{ℕ, ◌+◌, Option, none, some, List, [], ◌∷◌, if◌then◌else◌}
use muti_repo_workspace.Text.{codes, codes_eq, starts_with, trim}
use muti_repo_workspace.Text.Slices.{take, drop, strip_prefix, splits, or_else}
use muti_repo_workspace.Diff.Quoting.{Utf8, unquote_git_path, find_closing_quote}

abbrev without_prefix : List ℕ → List ℕ → List ℕ
without_prefix p s = elim (strip_prefix p s) [ none ↦ s | some rest ↦ rest ]

unfoldable pub strip_ab_prefix : List ℕ → List ℕ
unfolding strip_prefix
strip_ab_prefix p = elim (strip_prefix (codes "a/") p) [
  | some rest ↦ rest
  | none ↦ without_prefix (codes "b/") p
]

-- The two paths where the part before ` b/` is `a/` and the part after it.
unfoldable pub equal_halves : List (List ℕ × List ℕ) → Option (List ℕ × List ℕ)
unfolding strip_prefix codes_eq
equal_halves [] = none
equal_halves ((before, after) ∷ later) =
    let rest = equal_halves later in
    elim (strip_prefix (codes "a/") before) [
      | none ↦ rest
      | some a ↦ if codes_eq a after then some (a, after) else rest
    ]

unfoldable pub first_split : List (List ℕ × List ℕ) → Option (List ℕ × List ℕ)
unfolding strip_prefix
first_split [] = none
first_split ((before, after) ∷ later) = some (without_prefix (codes "a/") before, after)

module _ (utf8 : Utf8) where
  abbrev plain_path : List ℕ → List ℕ
  plain_path token = strip_ab_prefix (unquote_git_path utf8 token)

  -- The path of a side whose token is trimmed; `none` is `/dev/null`.
  unfoldable pub path_or_null : List ℕ → Option (List ℕ)
  unfolding codes_eq
  path_or_null t = if codes_eq t (codes "/dev/null") then none else some (plain_path t)

  unfoldable pub parse_ab_path_token : List ℕ → Option (List ℕ)
  unfolding trim
  parse_ab_path_token token = path_or_null (trim token)

  unfoldable pub quoted_pair : List ℕ → Option (List ℕ × List ℕ)
  unfolding find_closing_quote trim take drop
  quoted_pair rest = elim (find_closing_quote rest 0) [
    | none ↦ none
    | some a_end ↦
        some (plain_path (take (a_end + 1) rest), plain_path (trim (drop (a_end + 1) rest)))
  ]

  unfoldable pub unquoted_pair : List ℕ → Option (List ℕ × List ℕ)
  unfolding splits equal_halves first_split or_else
  unquoted_pair rest =
      let halves = splits (codes " b/") rest in or_else (equal_halves halves) (first_split halves)

  unfoldable pub parse_diff_git_line : List ℕ → Option (List ℕ × List ℕ)
  unfolding strip_prefix starts_with quoted_pair unquoted_pair
  parse_diff_git_line line = elim (strip_prefix (codes "diff --git ") line) [
    | none ↦ none
    | some rest ↦ if starts_with rest (b'"' ∷ []) then quoted_pair rest else unquoted_pair rest
  ]
