-- ===== src/Diff/Headers.antt =====
-- serve/src/diff.ts, lines 303 to 379: the lines of a file's header, in the order of the tests.
pub mod Kept
use mathlib.Core.Option.{map}
use muti_repo_workspace.Prelude.{
  ℕ, ◌-◌, Bool, true, ◌&&◌, Option, none, some, List, [], ◌∷◌, leb, if◌then◌else◌,
}
use muti_repo_workspace.Text.{codes, codes_eq, starts_with, trim}
use muti_repo_workspace.Text.Slices.{
  strip_prefix, or_else, drop, drop_last, ends_with, splits, first,
}
use muti_repo_workspace.Text.Numbers.{read_number}
use muti_repo_workspace.Text.Numbers.{ℤ, pos, negsuc}
use muti_repo_workspace.Diff.Quoting.{Utf8, unquote_git_path}
use muti_repo_workspace.Diff.Paths.{path_or_null, parse_ab_path_token}
use muti_repo_workspace.Diff.Draft.{Draft, Seen, unseen, seen}

-- What stands behind the first prefix that fits is handed to its handler.
unfoldable pub first_match : List (List ℕ × (List ℕ → Draft)) → List ℕ → Option Draft
unfolding strip_prefix or_else
first_match [] line = none
first_match ((p, handle) ∷ later) line =
    or_else (map handle (strip_prefix p line)) (first_match later line)

-- `(\d+)%`
unfoldable pub read_percent : List ℕ → Option ℕ
unfolding read_number starts_with
read_percent s = elim (read_number s) [
  | none ↦ none
  | some (n, rest) ↦ if starts_with rest (b'%' ∷ []) then some n else none
]

unfoldable pub hundred_minus : ℕ → ℤ
hundred_minus n = if leb n 100 then pos (100 - n) else negsuc (n - 101)

unfoldable pub similar : Draft → (ℕ → ℤ) → List ℕ → Draft
unfolding read_percent
similar d percent s = elim (read_percent s) [
  | none ↦ d
  | some n ↦ record d { similarity = some (percent n) }
]

module _ (utf8 : Utf8) where
  abbrev if_unseen : Seen → List ℕ → Seen
  if_unseen unseen token = seen (path_or_null utf8 (trim token))
  if_unseen (seen p) token = seen p

  -- The two sides of `Binary files X and Y differ`.
  unfoldable pub binary_sides : Draft → List ℕ → Draft
  unfolding trim splits path_or_null
  binary_sides d body = elim (first (splits (codes " and ") body)) [
    | none ↦ record d { is_binary = true }
    | some (a, b) ↦ record d {
      is_binary = true;
      old_path = if_unseen d.old_path a;
      new_path = if_unseen d.new_path b;
    }
  ]

  unfoldable pub binary_line : Draft → List ℕ → Option Draft
  unfolding binary_sides starts_with ends_with drop drop_last codes_eq
  binary_line d line =
      if starts_with line (codes "Binary files ") && ends_with line (codes " differ")
      then some (binary_sides d (drop 13 (drop_last 7 line)))
      else if codes_eq line (codes "GIT binary patch")
      then some (record d { is_binary = true })
      else none

  -- The lines on modes, renames, copies and similarity.
  unfoldable pub extended_lines : Draft → List (List ℕ × (List ℕ → Draft))
  unfolding trim unquote_git_path similar hundred_minus
  extended_lines d =
      (codes "old mode ", λ r. record d { old_mode = some (trim r) })
      ∷ (codes "new mode ", λ r. record d { new_mode = some (trim r) })
      ∷ (
        codes "deleted file mode ",
        λ r. record d { is_deleted_file = true; old_mode = some (trim r); new_path = seen none },
      )
      ∷ (
        codes "new file mode ",
        λ r. record d { is_new_file = true; new_mode = some (trim r); old_path = seen none },
      )
      ∷ (
        codes "rename from ",
        λ r. record d { is_rename = true; old_path = seen (some (unquote_git_path utf8 r)) },
      )
      ∷ (
        codes "rename to ",
        λ r. record d { is_rename = true; new_path = seen (some (unquote_git_path utf8 r)) },
      )
      ∷ (
        codes "copy from ",
        λ r. record d { is_copy = true; old_path = seen (some (unquote_git_path utf8 r)) },
      )
      ∷ (
        codes "copy to ",
        λ r. record d { is_copy = true; new_path = seen (some (unquote_git_path utf8 r)) },
      )
      ∷ (codes "similarity index ", similar d pos)
      ∷ (codes "dissimilarity index ", similar d hundred_minus)
      ∷ (codes "index ", λ r. d)
      ∷ []

  -- The `---` and `+++` lines.
  unfoldable pub path_lines : Draft → List (List ℕ × (List ℕ → Draft))
  unfolding parse_ab_path_token
  path_lines d =
      (codes "--- ", λ r. record d { old_path = seen (parse_ab_path_token utf8 r) })
      ∷ (codes "+++ ", λ r. record d { new_path = seen (parse_ab_path_token utf8 r) })
      ∷ []

  -- The draft behind a line of the header, where the line is one.
  unfoldable pub header_line : Draft → List ℕ → Option Draft
  unfolding first_match extended_lines binary_line path_lines or_else
  header_line d line =
      or_else (first_match (extended_lines d) line)
        (or_else (binary_line d line) (first_match (path_lines d) line))
