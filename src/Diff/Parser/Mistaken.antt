-- ===== src/Diff/Parser/Mistaken.antt =====
-- serve/src/diff.ts, lines 372 to 379: lines of a hunk that are taken for lines of the header.
use muti_repo_workspace.Prelude.{ℕ, some, List, ◌∷◌, ◌++◌, ◌≡◌, refl}
use muti_repo_workspace.Text.{codes, starts_with, codes_eq}
use muti_repo_workspace.Text.Slices.{strip_prefix, or_else}
use muti_repo_workspace.Diff.{DiffFile, del, add}
use muti_repo_workspace.Diff.Quoting.{Utf8}
use muti_repo_workspace.Diff.Paths.{parse_ab_path_token}
use muti_repo_workspace.Diff.Draft.{Draft, seen}
use muti_repo_workspace.Diff.Headers.{
  first_match, extended_lines, binary_line, path_lines, header_line,
}
use muti_repo_workspace.Diff.Parser.{OpenHunk, on_file_line, on_line}
use muti_repo_workspace.Diff.Parser.Printed.{mark}
use muti_repo_workspace.Diff.Parser.Bodies.{reading}

-- In an open hunk, whatever it has read, a deleted line whose text starts with `-- ` and an added
-- line whose text starts with `++ ` do not reach the hunk: the rest of the text replaces the file's
-- old path, respectively its new path, and nothing else changes.
pub on_line-mistaken :
    (utf8 : Utf8) (files : List DiffFile) (d : Draft) (o : OpenHunk) (t : List ℕ)
    → (on_line utf8 (reading files d (some o)) (mark del ∷ (codes "-- " ++ t))
        ≡ reading files (record d { old_path = seen (parse_ab_path_token utf8 t) }) (some o))
      × (on_line utf8 (reading files d (some o)) (mark add ∷ (codes "++ " ++ t))
          ≡ reading files (record d { new_path = seen (parse_ab_path_token utf8 t) }) (some o))
unfolding on_line on_file_line header_line first_match extended_lines binary_line path_lines
    strip_prefix or_else starts_with codes_eq
on_line-mistaken utf8 files d o t = (refl, refl)
