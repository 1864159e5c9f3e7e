-- ===== src/Tests/Diffs.antt =====
-- Runs of the diff parser of serve/src/diff.ts.
use muti_repo_workspace.Prelude.{ℕ, ◌≡◌, refl, arith, List, [], ◌∷◌, ◌++◌, some, true, false, All}
use muti_repo_workspace.Text.{codes}
use muti_repo_workspace.Diff.{context, add, del}
use muti_repo_workspace.Diff.Quoting.{Utf8, unquote_git_path}
use muti_repo_workspace.Diff.Quoting.RoundTrip.{
  quote_bytes, in_quotes, unquote_git_path-quote_bytes,
}
use muti_repo_workspace.Diff.Paths.{parse_ab_path_token}
use muti_repo_workspace.Diff.Draft.{new_draft, Draft, seen}
use muti_repo_workspace.Diff.Parser.{OpenHunk, open_hunk, on_line, parse_unified_diff}
use muti_repo_workspace.Diff.Parser.Numbering.{FileIsNumbered, parse_unified_diff-Numbered}
use muti_repo_workspace.Diff.Parser.Printed.{
  Numeral, PrintedFile, PrintedHunk, edited, created, mark, print_files,
}
use muti_repo_workspace.Diff.Parser.Bodies.{reading}
use muti_repo_workspace.Diff.Parser.RoundTrip.{with_ends}
use muti_repo_workspace.Diff.Parser.Mistaken.{on_line-mistaken}

-- `Buffer` on texts of ASCII.
abbrev ascii : Utf8
ascii = record { encode = λ c. c ∷ []; decode = λ bs. bs }

abbrev two : Numeral
two = record { first = b'2'; rest = [] }

abbrev three : Numeral
three = record { first = b'3'; rest = [] }

abbrev first_hunk : PrintedHunk
first_hunk = record {
  old_range = record { start = three; count = some two };
  new_range = record { start = three; count = some two };
  heading = codes " main";
  body =
      record { line_type = context; text = codes "keep"; unended = false }
      ∷ record { line_type = del; text = codes "gone"; unended = false }
      ∷ record { line_type = add; text = codes "come"; unended = true }
      ∷ [];
}

abbrev two_files : List PrintedFile
two_files =
    record {
      names = codes "a/x_y b/x_y";
      index = codes "12..34 100644";
      change = edited (codes "x_y") (codes "x_y");
      hunks = first_hunk ∷ [];
    }
    ∷ record {
      names = codes "a/n b/n";
      index = codes "0..34";
      change = created (codes "100644") (codes "n");
      hunks = [];
    }
    ∷ []

abbrev two_files_text : List ℕ
two_files_text = with_ends (print_files two_files)

parse_unified_diff-Numbered_example :
    All FileIsNumbered (parse_unified_diff ascii two_files_text).files
parse_unified_diff-Numbered_example = parse_unified_diff-Numbered ascii two_files_text

abbrev a_draft : Draft
a_draft = new_draft (codes "diff --git a/q b/q")

abbrev an_open_hunk : OpenHunk
an_open_hunk =
    open_hunk (codes "@@ -1 +0,0 @@")
      (record { old_start = 1; old_lines = 1; new_start = 0; new_lines = 0 })

on_line-mistaken_example :
    (on_line ascii
        (reading [] a_draft (some an_open_hunk))
        (mark del ∷ (codes "-- " ++ codes "drop"))
      ≡ reading []
          (record a_draft { old_path = seen (parse_ab_path_token ascii (codes "drop")) })
          (some an_open_hunk))
    × (on_line ascii
          (reading [] a_draft (some an_open_hunk))
          (mark add ∷ (codes "++ " ++ codes "drop"))
        ≡ reading []
            (record a_draft { new_path = seen (parse_ab_path_token ascii (codes "drop")) })
            (some an_open_hunk))
on_line-mistaken_example = on_line-mistaken ascii [] a_draft an_open_hunk (codes "drop")

-- The bytes of `a/`, a tab and a letter beyond ASCII.
abbrev some_bytes : List ℕ
some_bytes = 0x61 ∷ 0x2f ∷ 0x09 ∷ 0xc3 ∷ 0xa9 ∷ []

quotes_some_bytes : quote_bytes some_bytes ≡ codes "a/\\t\\303\\251"
unfolding quote_bytes
quotes_some_bytes = refl

unquote_git_path-quote_bytes_example :
    unquote_git_path ascii (in_quotes (quote_bytes some_bytes)) ≡ some_bytes
unquote_git_path-quote_bytes_example = unquote_git_path-quote_bytes ascii some_bytes (omega arith)
