-- ===== src/Diff/Parser/RoundTrip.antt =====
-- serve/src/diff.ts: the parser on whole printed diffs.
use muti_repo_workspace.Prelude.{
  ℕ, true, Option, none, List, [], ◌∷◌, ◌++◌, ◌==◌, ◌≡◌, not, all, ◌&&◌,
}
use muti_repo_workspace.Text.{codes}
use muti_repo_workspace.Diff.{DiffFile, ParsedDiff}
use muti_repo_workspace.Diff.Quoting.{Utf8}
use muti_repo_workspace.Diff.Draft.{Draft, new_draft}
use muti_repo_workspace.Diff.Parser.{OpenHunk, Parsing, flush_draft, on_lines, sum_files}
use muti_repo_workspace.Diff.Parser.Printed.{PrintedFile}
use muti_repo_workspace.Diff.Parser.Sections.{after_hunks, changed}

module _ (utf8 : Utf8) where
  -- The files read when the lines end with an empty one.
  abbrev result : Parsing → List (List ℕ) → List DiffFile
  result s ls = (flush_draft utf8 (on_lines utf8 s (ls ++ ([] ∷ [])))).files

  abbrev parsed : PrintedFile → Draft × Option OpenHunk
  parsed f =
      after_hunks (changed f.change (new_draft (codes "diff --git " ++ f.names))) none f.hunks

-- Neither a line feed nor a carriage return stands in the text.
abbrev pub IsLine : List ℕ → Type 0
IsLine s = all (λ c. not (c == b'\n') && not (c == b'\r')) s ≡ true

-- The text of lines that each end with a line feed.
abbrev pub with_ends : List (List ℕ) → List ℕ
with_ends [] = []
with_ends (l ∷ ls) = l ++ (b'\n' ∷ with_ends ls)

abbrev totals : List DiffFile → ParsedDiff
totals files = record {
  files = files;
  additions = sum_files (λ f. f.additions) files;
  deletions = sum_files (λ f. f.deletions) files;
}
