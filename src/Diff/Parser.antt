-- ===== src/Diff/Parser.antt =====
-- serve/src/diff.ts, `parseUnifiedDiff`.
pub mod Numbering
pub mod Printed
pub mod Ranges
pub mod Bodies
pub mod Sections
pub mod RoundTrip
pub mod Mistaken
use muti_repo_workspace.Prelude.{
  ℕ, ◌+◌, Bool, true, false, Option, none, some, List, [], ◌∷◌, ◌++◌, map, ◌==◌, if◌then◌else◌,
}
use muti_repo_workspace.Text.{codes, starts_with}
use muti_repo_workspace.Text.Slices.{split_lines}
use muti_repo_workspace.Diff.{
  DiffLineType, context, add, del, DiffLine, DiffHunk, DiffFile, ParsedDiff,
}
use muti_repo_workspace.Diff.Quoting.{Utf8}
use muti_repo_workspace.Diff.Draft.{HunkRange, parse_hunk_header, Draft, new_draft, finalize_draft}
use muti_repo_workspace.Diff.Headers.{header_line}

-- A hunk whose lines are being read, with `_oldNext` and `_newNext`.
pub record OpenHunk : Type 0 where
  pub hunk : DiffHunk
  pub old_next : ℕ
  pub new_next : ℕ

-- The variables of `parseUnifiedDiff`.
pub record Parsing : Type 0 where
  pub files : List DiffFile
  pub draft : Option Draft
  pub hunk : Option OpenHunk

unfoldable pub flush_hunk : Parsing → Parsing
flush_hunk s = flush s.hunk s.draft
  where
    flush : Option OpenHunk → Option Draft → Parsing
    flush (some o) (some d) = record s {
      draft = some (record d { hunks = d.hunks ++ (o.hunk ∷ []) });
      hunk = none;
    }
    flush _ _ = s

abbrev pub files_with : Utf8 → List DiffFile → Option Draft → List DiffFile
files_with utf8 files none = files
files_with utf8 files (some d) = files ++ (finalize_draft utf8 d ∷ [])

unfoldable pub flush_draft : Utf8 → Parsing → Parsing
unfolding flush_hunk finalize_draft
flush_draft utf8 s =
    let s' = flush_hunk s in record s' { files = files_with utf8 s'.files s'.draft; draft = none }

unfoldable pub open_hunk : List ℕ → HunkRange → OpenHunk
open_hunk line r = record {
  hunk = record {
    header = line;
    old_start = r.old_start;
    old_lines = r.old_lines;
    new_start = r.new_start;
    new_lines = r.new_lines;
    lines = [];
  };
  old_next = r.old_start;
  new_next = r.new_start;
}

abbrev push_line : DiffLine → DiffHunk → DiffHunk
push_line l h = record h { lines = h.lines ++ (l ∷ []) }

-- `last.noNewlineAtEnd = true`
unfoldable pub mark_last : List DiffLine → List DiffLine
mark_last [] = []
mark_last (l ∷ []) = record l { no_newline_at_end = true } ∷ []
mark_last (l ∷ k ∷ ls) = l ∷ mark_last (k ∷ ls)

unfoldable pub push_add : List ℕ → OpenHunk → OpenHunk
push_add t o = record o {
  hunk =
      push_line
        (record {
          line_type = add;
          old_no = none;
          new_no = some o.new_next;
          text = t;
          no_newline_at_end = false;
        })
        o.hunk;
  new_next = o.new_next + 1;
}

unfoldable pub push_del : List ℕ → OpenHunk → OpenHunk
push_del t o = record o {
  hunk =
      push_line
        (record {
          line_type = del;
          old_no = some o.old_next;
          new_no = none;
          text = t;
          no_newline_at_end = false;
        })
        o.hunk;
  old_next = o.old_next + 1;
}

unfoldable pub push_context : List ℕ → OpenHunk → OpenHunk
push_context t o = record o {
  hunk =
      push_line
        (record {
          line_type = context;
          old_no = some o.old_next;
          new_no = some o.new_next;
          text = t;
          no_newline_at_end = false;
        })
        o.hunk;
  old_next = o.old_next + 1;
  new_next = o.new_next + 1;
}

unfoldable pub mark_no_newline : OpenHunk → OpenHunk
unfolding mark_last
mark_no_newline o = record o { hunk = record o.hunk { lines = mark_last o.hunk.lines } }

-- A line in an open hunk; `none` ends the hunk.
unfoldable pub content_line : OpenHunk → List ℕ → Option OpenHunk
unfolding push_add push_del push_context mark_no_newline
content_line o [] = none
content_line o (m ∷ t) =
    if m == b'\\'
    then some (mark_no_newline o)
    else if m == b'+'
    then some (push_add t o)
    else if m == b'-'
    then some (push_del t o)
    else if m == b' '
    then some (push_context t o)
    else none

unfoldable pub on_content : OpenHunk → List ℕ → Parsing → Parsing
unfolding content_line flush_hunk
on_content o line s = elim (content_line o line) [
  | some o' ↦ record s { hunk = some o' }
  | none ↦ flush_hunk s
]

-- A line that is not one of the file's header.
unfoldable pub on_hunk_line : List ℕ → Parsing → Parsing
unfolding parse_hunk_header open_hunk on_content flush_hunk
on_hunk_line line s = elim (parse_hunk_header line) [
  | some r ↦ record (flush_hunk s) { hunk = some (open_hunk line r) }
  | none ↦ elim s.hunk [ none ↦ s | some o ↦ on_content o line s ]
]

abbrev pub no_files : Parsing
no_files = record { files = []; draft = none; hunk = none }

unfoldable pub sum_files : (DiffFile → ℕ) → List DiffFile → ℕ
sum_files f [] = 0
sum_files f (x ∷ xs) = f x + sum_files f xs

-- A trailing carriage return is dropped.
unfoldable pub drop_return : List ℕ → List ℕ
drop_return [] = []
drop_return (c ∷ []) = if c == b'\r' then [] else c ∷ []
drop_return (c ∷ d ∷ s) = c ∷ drop_return (d ∷ s)

module _ (utf8 : Utf8) where
  unfoldable pub on_file_line : Draft → List ℕ → Parsing → Parsing
  unfolding header_line on_hunk_line
  on_file_line d line s = elim (header_line utf8 d line) [
    | some d' ↦ record s { draft = some d' }
    | none ↦ on_hunk_line line s
  ]

  -- The body of the loop.
  unfoldable pub on_line : Parsing → List ℕ → Parsing
  unfolding flush_draft new_draft on_file_line starts_with
  on_line s line =
      if starts_with line (codes "diff --git ")
      then record (flush_draft utf8 s) { draft = some (new_draft line) }
      else elim s.draft [ none ↦ s | some d ↦ on_file_line d line s ]

  unfoldable pub on_lines : Parsing → List (List ℕ) → Parsing
  unfolding on_line
  on_lines s [] = s
  on_lines s (l ∷ ls) = on_lines (on_line s l) ls

  unfoldable pub parse_lines : List (List ℕ) → ParsedDiff
  unfolding on_lines flush_draft sum_files
  parse_lines lines =
      let files = (flush_draft utf8 (on_lines no_files lines)).files in
      record {
        files = files;
        additions = sum_files (λ f. f.additions) files;
        deletions = sum_files (λ f. f.deletions) files;
      }

  unfoldable pub parse_unified_diff : List ℕ → ParsedDiff
  unfolding parse_lines split_lines drop_return
  parse_unified_diff [] = record { files = []; additions = 0; deletions = 0 }
  parse_unified_diff (c ∷ text) = parse_lines (map drop_return (split_lines (c ∷ text)))
