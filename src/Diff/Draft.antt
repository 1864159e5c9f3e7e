-- ===== src/Diff/Draft.antt =====
-- serve/src/diff.ts, lines 194 to 268: hunk headers, and the draft of a file.
use muti_repo_workspace.Prelude.{
  ℕ, ◌+◌, Bool, true, false, ◌&&◌, ◌||◌, not, Option, none, some, List, [], ◌∷◌, ◌==◌,
  if◌then◌else◌,
}
use muti_repo_workspace.Text.{codes}
use muti_repo_workspace.Text.Slices.{strip_prefix, ◌>>=◌}
use muti_repo_workspace.Text.Numbers.{ℤ, read_number}
use muti_repo_workspace.Diff.{
  DiffLineType, add, del, DiffLine, DiffHunk, DiffFileStatus, added, deleted, renamed, copied,
  modified, ℤ, DiffFile,
}
use muti_repo_workspace.Diff.Quoting.{Utf8}
use muti_repo_workspace.Diff.Paths.{parse_diff_git_line}

-- `(?:,(\d+))?`, with 1 where it is left out.
unfoldable pub read_count : List ℕ → Option (ℕ × List ℕ)
unfolding strip_prefix read_number
read_count s = elim (strip_prefix (codes ",") s) [
  | none ↦ some (1, s)
  | some rest ↦ read_number rest
]

-- `.*$`, where a line holds no line feed.
unfoldable pub is_one_line : List ℕ → Bool
is_one_line [] = true
is_one_line (c ∷ s) = not (c == b'\r' || c == 0x2028 || c == 0x2029) && is_one_line s

pub record HunkRange : Type 0 where
  pub old_start : ℕ
  pub old_lines : ℕ
  pub new_start : ℕ
  pub new_lines : ℕ

-- `HUNK_HEADER_RE`
unfoldable pub parse_hunk_header : List ℕ → Option HunkRange
unfolding strip_prefix read_number read_count is_one_line ◌>>=◌
parse_hunk_header line = do
  s ← strip_prefix (codes "@@ -") line
  (old_start, s1) ← read_number s
  (old_lines, s2) ← read_count s1
  s3 ← strip_prefix (codes " +") s2
  (new_start, s4) ← read_number s3
  (new_lines, s5) ← read_count s4
  s6 ← strip_prefix (codes " @@") s5
  let range : HunkRange = record {
    old_start = old_start;
    old_lines = old_lines;
    new_start = new_start;
    new_lines = new_lines;
  }
  if is_one_line s6 then some range else none

-- A path that may not have been seen yet (`undefined`); `seen none` is the null of `/dev/null`.
pub data Seen : Type 0 where
  unseen : Seen
  seen : Option (List ℕ) → Seen

pub record Draft : Type 0 where
  pub diff_git_line : List ℕ
  pub old_path : Seen
  pub new_path : Seen
  pub old_mode : Option (List ℕ)
  pub new_mode : Option (List ℕ)
  pub similarity : Option ℤ
  pub is_binary : Bool
  pub is_rename : Bool
  pub is_copy : Bool
  pub is_new_file : Bool
  pub is_deleted_file : Bool
  pub hunks : List DiffHunk

unfoldable pub new_draft : List ℕ → Draft
new_draft line = record {
  diff_git_line = line;
  old_path = unseen;
  new_path = unseen;
  old_mode = none;
  new_mode = none;
  similarity = none;
  is_binary = false;
  is_rename = false;
  is_copy = false;
  is_new_file = false;
  is_deleted_file = false;
  hunks = [];
}

abbrev path_of : Seen → Option (List ℕ)
path_of unseen = none
path_of (seen p) = p

-- Both paths, from the `diff --git` line where no other line gave one.
unfoldable pub paths_of : Utf8 → Draft → Option (List ℕ) × Option (List ℕ)
unfolding parse_diff_git_line
paths_of utf8 d = fallback d.old_path d.new_path
  where
    fallback : Seen → Seen → Option (List ℕ) × Option (List ℕ)
    fallback unseen unseen = elim (parse_diff_git_line utf8 d.diff_git_line) [
      | none ↦ (none, none)
      | some (a, b) ↦ (some a, some b)
    ]
    fallback o n = (path_of o, path_of n)

abbrev is_null : Option (List ℕ) → Bool
is_null none = true
is_null (some p) = false

unfoldable pub status_of : Draft → Option (List ℕ) → Option (List ℕ) → DiffFileStatus
status_of d old_path new_path =
    if d.is_rename
    then renamed
    else if d.is_copy
    then copied
    else if d.is_new_file || is_null old_path && not (is_null new_path)
    then added
    else if d.is_deleted_file || is_null new_path && not (is_null old_path)
    then deleted
    else modified

abbrev pub is_add : DiffLineType → Bool
is_add add = true
is_add _ = false

abbrev pub is_del : DiffLineType → Bool
is_del del = true
is_del _ = false

unfoldable pub count_lines : (DiffLineType → Bool) → List DiffLine → ℕ
count_lines p [] = 0
count_lines p (l ∷ ls) = (if p l.line_type then 1 else 0) + count_lines p ls

unfoldable pub count_hunks : (DiffLineType → Bool) → List DiffHunk → ℕ
unfolding count_lines
count_hunks p [] = 0
count_hunks p (h ∷ hs) = count_lines p h.lines + count_hunks p hs

unfoldable pub finalize_draft : Utf8 → Draft → DiffFile
unfolding paths_of status_of count_hunks
finalize_draft utf8 d =
    let (old_path, new_path) = paths_of utf8 d in
    record {
      old_path = old_path;
      new_path = new_path;
      status = status_of d old_path new_path;
      similarity = d.similarity;
      old_mode = d.old_mode;
      new_mode = d.new_mode;
      is_binary = d.is_binary;
      additions = count_hunks is_add d.hunks;
      deletions = count_hunks is_del d.hunks;
      hunks = d.hunks;
    }
