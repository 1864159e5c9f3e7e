-- ===== src/Diff/Parser/Sections.antt =====
-- serve/src/diff.ts: the parser on the printed hunks and header lines of a file.
use muti_repo_workspace.Prelude.{
  ℕ, true, Option, none, some, List, [], ◌∷◌, ◌++◌, map, All, ◌≡◌, refl, arith, ap, sym, ◌∙◌,
  append_assoc, append-nil,
}
use muti_repo_workspace.Text.{codes, starts_with, codes_eq, trim, trim_start, is_space}
use muti_repo_workspace.Text.Slices.{strip_prefix, or_else}
use muti_repo_workspace.Diff.{DiffFile}
use muti_repo_workspace.Diff.Quoting.{Utf8, unquote_trimmed, unquote_git_path}
use muti_repo_workspace.Diff.Paths.{strip_ab_prefix, path_or_null, parse_ab_path_token}
use muti_repo_workspace.Diff.Draft.{HunkRange, parse_hunk_header, Draft, seen}
use muti_repo_workspace.Diff.Headers.{
  first_match, extended_lines, binary_line, path_lines, header_line,
}
use muti_repo_workspace.Diff.Parser.{
  OpenHunk, flush_hunk, open_hunk, on_hunk_line, on_file_line, on_line, on_lines,
}
use muti_repo_workspace.Diff.Parser.Printed.{
  PrintedHunk, Change, edited, created, removed, print_hunks, ranges, range, print_change,
  HunkIsPrinted, IsTrimmed, ChangeIsPrinted, hunk_of, print_body,
}
use muti_repo_workspace.Diff.Parser.Ranges.{parse_hunk_header-range}
use muti_repo_workspace.Diff.Parser.Bodies.{reading, pushed_body, pushed_body-hunk, on_lines-body}

-- The draft with the open hunk flushed.
abbrev pub closed : Draft → Option OpenHunk → Draft
closed d none = d
closed d (some o) = record d { hunks = d.hunks ++ (o.hunk ∷ []) }

header_line-hunk :
    (utf8 : Utf8) (d : Draft) (s : List ℕ) → header_line utf8 d (codes "@@ -" ++ s) ≡ none
unfolding header_line first_match extended_lines binary_line path_lines strip_prefix or_else
    starts_with codes_eq
header_line-hunk utf8 d s = refl

-- The draft and the open hunk behind printed hunks.
abbrev pub after_hunks : Draft → Option OpenHunk → List PrintedHunk → Draft × Option OpenHunk
after_hunks d h [] = (d, h)
after_hunks d h (p ∷ ps) =
    after_hunks (closed d h)
      (some (pushed_body (open_hunk (codes "@@ -" ++ ranges p) (range p)) p.body)) ps

pub after_hunks-closed :
    (d : Draft) (h : Option OpenHunk) (ps : List PrintedHunk)
    → closed (after_hunks d h ps).0 (after_hunks d h ps).1
      ≡ record (closed d h) { hunks = (closed d h).hunks ++ map hunk_of ps }
unfolding open_hunk
after_hunks-closed d h [] =
    ap (λ hs. record (closed d h) { hunks = hs }) (sym (append-nil (closed d h).hunks))
after_hunks-closed d h (p ∷ ps) =
    let o = pushed_body (open_hunk (codes "@@ -" ++ ranges p) (range p)) p.body in
    after_hunks-closed (closed d h) (some o) ps
    ∙ ap (λ hs. record (closed d h) { hunks = hs })
        (append_assoc (closed d h).hunks (o.hunk ∷ []) (map hunk_of ps))
    ∙ ap (λ k. record (closed d h) { hunks = (closed d h).hunks ++ (k ∷ map hunk_of ps) })
        (pushed_body-hunk (open_hunk (codes "@@ -" ++ ranges p) (range p)) p.body)

module _ (utf8 : Utf8) (files : List DiffFile) where
  on_line-hunk :
      (d : Draft) (h : Option OpenHunk) (s : List ℕ) (r : HunkRange)
      → parse_hunk_header (codes "@@ -" ++ s) ≡ some r
      → on_line utf8 (reading files d h) (codes "@@ -" ++ s)
        ≡ reading files (closed d h) (some (open_hunk (codes "@@ -" ++ s) r))
  unfolding on_line on_file_line on_hunk_line starts_with flush_hunk
  on_line-hunk d none s r e = ground (arith, header_line-hunk utf8 d s)
  on_line-hunk d (some o) s r e = ground (arith, header_line-hunk utf8 d s)

  pub on_lines-hunks :
      (d : Draft) (h : Option OpenHunk) (ps : List PrintedHunk) (rest : List (List ℕ))
      → All HunkIsPrinted ps
      → on_lines utf8 (reading files d h) (print_hunks ps ++ rest)
        ≡ on_lines utf8 (reading files (after_hunks d h ps).0 (after_hunks d h ps).1) rest
  unfolding on_lines
  on_lines-hunks d h [] rest k = refl
  on_lines-hunks d h (p ∷ ps) rest ((old, new, one, safe), k) =
      ap (λ s. on_lines utf8 s ((print_body p.body ++ print_hunks ps) ++ rest))
        (on_line-hunk d h (ranges p) (range p) (parse_hunk_header-range p old new one))
      ∙ ap (on_lines utf8 _) (append_assoc (print_body p.body) (print_hunks ps) rest)
      ∙ on_lines-body utf8 files (closed d h) _ p.body (print_hunks ps ++ rest) safe
      ∙ on_lines-hunks (closed d h) _ ps rest k

module _ (utf8 : Utf8) where
  unquoted-old : (p : List ℕ) → unquote_trimmed utf8 (codes "a/" ++ p) ≡ codes "a/" ++ p
  unfolding unquote_trimmed starts_with
  unquoted-old p = ground arith

  unquoted-new : (p : List ℕ) → unquote_trimmed utf8 (codes "b/" ++ p) ≡ codes "b/" ++ p
  unfolding unquote_trimmed starts_with
  unquoted-new p = ground arith

  old_token :
      (p : List ℕ)
      → IsTrimmed (codes "a/" ++ p)
      → parse_ab_path_token utf8 (codes "a/" ++ p) ≡ some p
  unfolding parse_ab_path_token path_or_null codes_eq unquote_git_path strip_ab_prefix strip_prefix
  old_token p h =
      ap (path_or_null utf8) h
      ∙ ap (λ t. some (strip_ab_prefix (unquote_trimmed utf8 t))) h
      ∙ ap (λ t. some (strip_ab_prefix t)) (unquoted-old p)

  new_token :
      (p : List ℕ)
      → IsTrimmed (codes "b/" ++ p)
      → parse_ab_path_token utf8 (codes "b/" ++ p) ≡ some p
  unfolding parse_ab_path_token path_or_null codes_eq unquote_git_path strip_ab_prefix strip_prefix
  new_token p h =
      ap (path_or_null utf8) h
      ∙ ap (λ t. some (strip_ab_prefix (unquote_trimmed utf8 t))) h
      ∙ ap (λ t. some (strip_ab_prefix t)) (unquoted-new p)

  no_token : parse_ab_path_token utf8 (codes "/dev/null") ≡ none
  unfolding parse_ab_path_token path_or_null codes_eq trim trim_start is_space
  no_token = refl

-- The draft behind the header lines of a change.
abbrev pub changed : Change → Draft → Draft
changed (edited p q) d = record d { old_path = seen (some p); new_path = seen (some q) }
changed (created m q) d = record d {
  is_new_file = true;
  new_mode = some m;
  old_path = seen none;
  new_path = seen (some q);
}
changed (removed m p) d = record d {
  is_deleted_file = true;
  old_mode = some m;
  old_path = seen (some p);
  new_path = seen none;
}

pub on_lines-change :
    (utf8 : Utf8) (files : List DiffFile) (d : Draft) (index : List ℕ) (c : Change)
    (rest : List (List ℕ))
    → ChangeIsPrinted c
    → on_lines utf8 (reading files d none) (print_change index c ++ rest)
      ≡ on_lines utf8 (reading files (changed c d) none) rest
unfolding on_lines on_line on_file_line header_line first_match extended_lines binary_line
    path_lines strip_prefix or_else starts_with codes_eq
on_lines-change utf8 files d index (edited p q) rest (h, k) =
    rw (old_token utf8 p h, new_token utf8 q k) refl
on_lines-change utf8 files d index (created m q) rest (h, k) =
    rw (h, no_token utf8, new_token utf8 q k) refl
on_lines-change utf8 files d index (removed m p) rest (h, k) = rw (h, old_token utf8 p k) refl
