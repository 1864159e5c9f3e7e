-- ===== src/Diff.antt =====
-- serve/src/diff.ts: the types of a parsed diff. A text is the list of its code units.
pub mod Quoting
pub mod Paths
pub mod Draft
pub mod Headers
pub mod Parser
use muti_repo_workspace.Prelude.{ℕ, Bool, Option, List}
use muti_repo_workspace.Text.Numbers.{ℤ}

pub data DiffLineType : Type 0 where
  context add del : DiffLineType

pub record DiffLine : Type 0 where
  pub line_type : DiffLineType
  pub old_no : Option ℕ
  pub new_no : Option ℕ
  pub text : List ℕ
  pub no_newline_at_end : Bool

pub record DiffHunk : Type 0 where
  pub header : List ℕ
  pub old_start : ℕ
  pub old_lines : ℕ
  pub new_start : ℕ
  pub new_lines : ℕ
  pub lines : List DiffLine

pub data DiffFileStatus : Type 0 where
  added deleted renamed copied modified : DiffFileStatus

pub record DiffFile : Type 0 where
  pub old_path : Option (List ℕ)
  pub new_path : Option (List ℕ)
  pub status : DiffFileStatus
  pub similarity : Option ℤ
  pub old_mode : Option (List ℕ)
  pub new_mode : Option (List ℕ)
  pub is_binary : Bool
  pub additions : ℕ
  pub deletions : ℕ
  pub hunks : List DiffHunk

pub record ParsedDiff : Type 0 where
  pub files : List DiffFile
  pub additions : ℕ
  pub deletions : ℕ
