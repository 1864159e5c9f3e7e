-- ===== src/Diff/Parser/Printed.antt =====
-- Diffs in the form of git's for serve/src/diff.ts to read, and the parsed diffs that they stand for.
-- Paths are unquoted, and no tab stands behind a path with a space.
use muti_repo_workspace.Prelude.{
  ℕ, Bool, true, false, Option, none, some, List, [], ◌∷◌, ◌++◌, map, All, all, ◌+◌, ◌-◌, ◌*◌, ◌≡◌,
}
use muti_repo_workspace.Text.{codes, starts_with, trim}
use muti_repo_workspace.Text.Numbers.{is_digit}
use muti_repo_workspace.Diff.{
  DiffLineType, add, del, context, DiffLine, DiffHunk, DiffFile, DiffFileStatus, added, deleted,
  modified, ParsedDiff,
}
use muti_repo_workspace.Diff.Draft.{HunkRange, is_one_line, is_add, is_del, count_hunks}
use muti_repo_workspace.Diff.Parser.{sum_files}
use muti_repo_workspace.Diff.Parser.Numbering.{is_old, is_new, number, next_number}

-- A line of a hunk; the flag says that its file ends there without a line feed.
pub record BodyLine : Type 0 where
  pub line_type : DiffLineType
  pub text : List ℕ
  pub unended : Bool

-- A number, as its digits.
pub record Numeral : Type 0 where
  pub first : ℕ
  pub rest : List ℕ

-- The start of a side of a hunk, and the number of its lines, which is left out where it is 1.
pub record Side : Type 0 where
  pub start : Numeral
  pub count : Option Numeral

pub record PrintedHunk : Type 0 where
  pub old_range : Side
  pub new_range : Side
  pub heading : List ℕ
  pub body : List BodyLine

-- How a file was changed: its paths, and the mode of a file that is new or deleted.
pub data Change : Type 0 where
  edited : (old_path new_path : List ℕ) → Change
  created : (mode new_path : List ℕ) → Change
  removed : (mode old_path : List ℕ) → Change

pub record PrintedFile : Type 0 where
  pub names : List ℕ
  pub index : List ℕ
  pub change : Change
  pub hunks : List PrintedHunk

abbrev pub print_numeral : Numeral → List ℕ
print_numeral n = n.first ∷ n.rest

abbrev pub print_count : Option Numeral → List ℕ
print_count none = []
print_count (some n) = b',' ∷ print_numeral n

-- What stands behind `@@ -`.
abbrev pub ranges : PrintedHunk → List ℕ
ranges h =
    print_numeral h.old_range.start
    ++ (print_count h.old_range.count
        ++ (codes " +"
            ++ (print_numeral h.new_range.start
                ++ (print_count h.new_range.count ++ (codes " @@" ++ h.heading)))))

-- The value of digits behind a number.
abbrev pub value_from : ℕ → List ℕ → ℕ
value_from n [] = n
value_from n (c ∷ s) = value_from (10 * n + (c - b'0')) s

abbrev pub value : Numeral → ℕ
value n = value_from (n.first - b'0') n.rest

abbrev pub lines_of : Option Numeral → ℕ
lines_of none = 1
lines_of (some n) = value n

abbrev pub range : PrintedHunk → HunkRange
range h = record {
  old_start = value h.old_range.start;
  old_lines = lines_of h.old_range.count;
  new_start = value h.new_range.start;
  new_lines = lines_of h.new_range.count;
}

abbrev pub mark : DiffLineType → ℕ
mark context = b' '
mark add = b'+'
mark del = b'-'

abbrev pub unended_lines : Bool → List (List ℕ)
unended_lines true = codes "\\ No newline at end of file" ∷ []
unended_lines false = []

abbrev pub print_body : List BodyLine → List (List ℕ)
print_body [] = []
print_body (l ∷ ls) = (mark l.line_type ∷ l.text) ∷ (unended_lines l.unended ++ print_body ls)

abbrev pub print_hunks : List PrintedHunk → List (List ℕ)
print_hunks [] = []
print_hunks (h ∷ hs) = (codes "@@ -" ++ ranges h) ∷ (print_body h.body ++ print_hunks hs)

abbrev pub print_change : List ℕ → Change → List (List ℕ)
print_change index (edited p q) =
    (codes "index " ++ index) ∷ (codes "--- a/" ++ p) ∷ (codes "+++ b/" ++ q) ∷ []
print_change index (created m q) =
    (codes "new file mode " ++ m)
    ∷ (codes "index " ++ index)
    ∷ codes "--- /dev/null"
    ∷ (codes "+++ b/" ++ q)
    ∷ []
print_change index (removed m p) =
    (codes "deleted file mode " ++ m)
    ∷ (codes "index " ++ index)
    ∷ (codes "--- a/" ++ p)
    ∷ codes "+++ /dev/null"
    ∷ []

abbrev pub print_file : PrintedFile → List (List ℕ)
print_file f =
    (codes "diff --git " ++ f.names) ∷ (print_change f.index f.change ++ print_hunks f.hunks)

abbrev pub print_files : List PrintedFile → List (List ℕ)
print_files [] = []
print_files (f ∷ fs) = print_file f ++ print_files fs

-- A deleted line does not start with `-- `, nor an added one with `++ `.
abbrev pub IsSafe : DiffLineType → List ℕ → Type 0
IsSafe context t = Unit
IsSafe add t = starts_with t (codes "++ ") ≡ false
IsSafe del t = starts_with t (codes "-- ") ≡ false

abbrev pub BodyIsSafe : List BodyLine → Type 0
BodyIsSafe = All (λ (l : BodyLine). IsSafe l.line_type l.text)

abbrev pub IsNumeral : Numeral → Type 0
IsNumeral n = all is_digit (print_numeral n) ≡ true

abbrev pub IsCount : Option Numeral → Type 0
IsCount none = Unit
IsCount (some n) = IsNumeral n

abbrev pub IsSide : Side → Type 0
IsSide s = IsNumeral s.start × IsCount s.count

-- Numbers are digits, and the text behind the ranges is on one line.
abbrev pub HunkIsPrinted : PrintedHunk → Type 0
HunkIsPrinted h =
    IsSide h.old_range × IsSide h.new_range × (is_one_line h.heading ≡ true) × BodyIsSafe h.body

-- The text has no white space around it.
abbrev pub IsTrimmed : List ℕ → Type 0
IsTrimmed s = trim s ≡ s

abbrev pub ChangeIsPrinted : Change → Type 0
ChangeIsPrinted (edited p q) = IsTrimmed (codes "a/" ++ p) × IsTrimmed (codes "b/" ++ q)
ChangeIsPrinted (created m q) = IsTrimmed m × IsTrimmed (codes "b/" ++ q)
ChangeIsPrinted (removed m p) = IsTrimmed m × IsTrimmed (codes "a/" ++ p)

abbrev pub FileIsPrinted : PrintedFile → Type 0
FileIsPrinted f = ChangeIsPrinted f.change × All HunkIsPrinted f.hunks

-- The lines that a body stands for, from the next line number of each side on.
abbrev pub body_lines : ℕ → ℕ → List BodyLine → List DiffLine
body_lines o n [] = []
body_lines o n (l ∷ ls) =
    record {
      line_type = l.line_type;
      old_no = number (is_old l.line_type) o;
      new_no = number (is_new l.line_type) n;
      text = l.text;
      no_newline_at_end = l.unended;
    }
    ∷ body_lines (next_number (is_old l.line_type) o) (next_number (is_new l.line_type) n) ls

abbrev pub hunk_of : PrintedHunk → DiffHunk
hunk_of h = record {
  header = codes "@@ -" ++ ranges h;
  old_start = (range h).old_start;
  old_lines = (range h).old_lines;
  new_start = (range h).new_start;
  new_lines = (range h).new_lines;
  lines = body_lines (range h).old_start (range h).new_start h.body;
}

abbrev pub old_side : Change → Option (List ℕ)
old_side (edited p q) = some p
old_side (created m q) = none
old_side (removed m p) = some p

abbrev pub new_side : Change → Option (List ℕ)
new_side (edited p q) = some q
new_side (created m q) = some q
new_side (removed m p) = none

abbrev pub old_mode_of : Change → Option (List ℕ)
old_mode_of (removed m p) = some m
old_mode_of _ = none

abbrev pub new_mode_of : Change → Option (List ℕ)
new_mode_of (created m q) = some m
new_mode_of _ = none

abbrev pub change_status : Change → DiffFileStatus
change_status (edited p q) = modified
change_status (created m q) = added
change_status (removed m p) = deleted

abbrev pub file_of : PrintedFile → DiffFile
file_of f = record {
  old_path = old_side f.change;
  new_path = new_side f.change;
  status = change_status f.change;
  similarity = none;
  old_mode = old_mode_of f.change;
  new_mode = new_mode_of f.change;
  is_binary = false;
  additions = count_hunks is_add (map hunk_of f.hunks);
  deletions = count_hunks is_del (map hunk_of f.hunks);
  hunks = map hunk_of f.hunks;
}

abbrev pub diff_of : List PrintedFile → ParsedDiff
diff_of fs = record {
  files = map file_of fs;
  additions = sum_files (λ f. f.additions) (map file_of fs);
  deletions = sum_files (λ f. f.deletions) (map file_of fs);
}
