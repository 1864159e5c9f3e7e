-- ===== src/Diff/Parser/Bodies.antt =====
-- serve/src/diff.ts: the parser on the printed lines of a hunk.
use muti_repo_workspace.Prelude.{
  ℕ, Bool, true, false, Option, none, some, List, [], ◌∷◌, ◌++◌, ◌≡◌, refl, arith, ap, sym, ◌∙◌,
  append_assoc, append-nil,
}
use muti_repo_workspace.Text.{codes, starts_with, codes_eq}
use muti_repo_workspace.Text.Slices.{strip_prefix, or_else, ◌>>=◌}
use muti_repo_workspace.Diff.{DiffLineType, add, del, context, DiffLine, DiffFile}
use muti_repo_workspace.Diff.Quoting.{Utf8}
use muti_repo_workspace.Diff.Draft.{parse_hunk_header, Draft}
use muti_repo_workspace.Diff.Headers.{
  first_match, extended_lines, binary_line, path_lines, header_line,
}
use muti_repo_workspace.Diff.Parser.{
  OpenHunk, Parsing, mark_last, push_add, push_del, push_context, mark_no_newline, content_line,
  on_content, on_hunk_line, on_file_line, on_line, on_lines,
}
use muti_repo_workspace.Diff.Parser.Numbering.{is_old, is_new, number, next_number}
use muti_repo_workspace.Diff.Parser.Printed.{
  BodyLine, mark, unended_lines, print_body, IsSafe, BodyIsSafe, body_lines,
}

strip_prefix-none : (p s : List ℕ) → starts_with s p ≡ false → strip_prefix p s ≡ none
unfolding strip_prefix starts_with
strip_prefix-none [] s h = cc
strip_prefix-none (a ∷ p) [] h = refl
strip_prefix-none (a ∷ p) (c ∷ s) h = ground (arith, strip_prefix-none p s)

abbrev pub reading : List DiffFile → Draft → Option OpenHunk → Parsing
reading files d h = record { files = files; draft = some d; hunk = h }

module _ (utf8 : Utf8) where
  header_line-body :
      (d : Draft) (t : DiffLineType) (s : List ℕ)
      → IsSafe t s
      → header_line utf8 d (mark t ∷ s) ≡ none
  unfolding header_line first_match extended_lines binary_line path_lines strip_prefix or_else
      starts_with codes_eq
  header_line-body d context s h = refl
  header_line-body d add s h = rw (strip_prefix-none (codes "++ ") s h) refl
  header_line-body d del s h = rw (strip_prefix-none (codes "-- ") s h) refl

  header_line-unended : (d : Draft) (s : List ℕ) → header_line utf8 d (b'\\' ∷ s) ≡ none
  unfolding header_line first_match extended_lines binary_line path_lines strip_prefix or_else
      starts_with codes_eq
  header_line-unended d s = refl

-- An open hunk behind a line that is pushed.
abbrev pushed : OpenHunk → DiffLineType → List ℕ → Bool → OpenHunk
pushed o t s unended = record {
  hunk = record o.hunk {
    lines =
        o.hunk.lines
        ++ (record {
          line_type = t;
          old_no = number (is_old t) o.old_next;
          new_no = number (is_new t) o.new_next;
          text = s;
          no_newline_at_end = unended;
        }
            ∷ []);
  };
  old_next = next_number (is_old t) o.old_next;
  new_next = next_number (is_new t) o.new_next;
}

content_line-pushed :
    (o : OpenHunk) (t : DiffLineType) (s : List ℕ)
    → content_line o (mark t ∷ s) ≡ some (pushed o t s false)
unfolding content_line push_add push_del push_context
content_line-pushed o context s = refl
content_line-pushed o add s = refl
content_line-pushed o del s = refl

mark_last-push :
    (ls : List DiffLine) (l : DiffLine)
    → mark_last (ls ++ (l ∷ [])) ≡ ls ++ (record l { no_newline_at_end = true } ∷ [])
unfolding mark_last
mark_last-push [] l = refl
mark_last-push (k ∷ []) l = refl
mark_last-push (k ∷ j ∷ ls) l = ap (λ t. k ∷ t) (mark_last-push (j ∷ ls) l)

content_line-unended :
    (o : OpenHunk) (t : DiffLineType) (s u : List ℕ)
    → content_line (pushed o t s false) (b'\\' ∷ u) ≡ some (pushed o t s true)
unfolding content_line mark_no_newline
content_line-unended o t s u =
    ap (λ ls. some (record (pushed o t s true) { hunk = record o.hunk { lines = ls } }))
      (mark_last-push o.hunk.lines _)

module _ (utf8 : Utf8) (files : List DiffFile) (d : Draft) where
  -- A line that the hunk takes changes nothing but the hunk.
  on_line-taken :
      (o o' : OpenHunk) (m : ℕ) (s : List ℕ)
      → (starts_with (m ∷ s) (codes "diff --git ") ≡ false)
      → header_line utf8 d (m ∷ s) ≡ none
      → parse_hunk_header (m ∷ s) ≡ none
      → content_line o (m ∷ s) ≡ some o'
      → on_line utf8 (reading files d (some o)) (m ∷ s) ≡ reading files d (some o')
  unfolding on_line on_file_line on_hunk_line on_content
  on_line-taken o o' m s quiet plain same taken = ground arith

  on_line-body :
      (o : OpenHunk) (t : DiffLineType) (s : List ℕ)
      → IsSafe t s
      → on_line utf8 (reading files d (some o)) (mark t ∷ s)
        ≡ reading files d (some (pushed o t s false))
  unfolding starts_with parse_hunk_header strip_prefix ◌>>=◌
  on_line-body o context s h =
      on_line-taken o _ b' ' s refl (header_line-body utf8 d context s h) refl
        (content_line-pushed o context s)
  on_line-body o add s h =
      on_line-taken o _ b'+' s refl (header_line-body utf8 d add s h) refl
        (content_line-pushed o add s)
  on_line-body o del s h =
      on_line-taken o _ b'-' s refl (header_line-body utf8 d del s h) refl
        (content_line-pushed o del s)

  on_line-unended :
      (o : OpenHunk) (t : DiffLineType) (s u : List ℕ)
      → on_line utf8 (reading files d (some (pushed o t s false))) (b'\\' ∷ u)
        ≡ reading files d (some (pushed o t s true))
  unfolding starts_with parse_hunk_header strip_prefix ◌>>=◌
  on_line-unended o t s u =
      on_line-taken (pushed o t s false) _ b'\\' u refl (header_line-unended utf8 d u) refl
        (content_line-unended o t s u)

  pub on_lines-append :
      (s : Parsing) (xs ys : List (List ℕ))
      → on_lines utf8 s (xs ++ ys) ≡ on_lines utf8 (on_lines utf8 s xs) ys
  unfolding on_lines
  on_lines-append s [] ys = refl
  on_lines-append s (x ∷ xs) ys = on_lines-append (on_line utf8 s x) xs ys

  on_lines-line :
      (o : OpenHunk) (l : BodyLine) (rest : List (List ℕ))
      → IsSafe l.line_type l.text
      → on_lines utf8
          (reading files d (some o))
          ((mark l.line_type ∷ l.text) ∷ (unended_lines l.unended ++ rest))
        ≡ on_lines utf8 (reading files d (some (pushed o l.line_type l.text l.unended))) rest
  unfolding on_lines
  on_lines-line o l rest h = go l.unended
    where
      go :
          (b : Bool)
          → on_lines utf8
              (reading files d (some o))
              ((mark l.line_type ∷ l.text) ∷ (unended_lines b ++ rest))
            ≡ on_lines utf8 (reading files d (some (pushed o l.line_type l.text b))) rest
      go false = ap (λ s. on_lines utf8 s rest) (on_line-body o l.line_type l.text h)
      go true =
          ap (λ s. on_lines utf8 (on_line utf8 s ended) rest) (on_line-body o l.line_type l.text h)
          ∙ ap (λ s. on_lines utf8 s rest)
              (on_line-unended o l.line_type l.text (codes " No newline at end of file"))
        where
          ended : List ℕ
          ended = codes "\\ No newline at end of file"

-- The open hunk behind a body.
abbrev pub pushed_body : OpenHunk → List BodyLine → OpenHunk
pushed_body o [] = o
pushed_body o (l ∷ ls) = pushed_body (pushed o l.line_type l.text l.unended) ls

pub pushed_body-hunk :
    (o : OpenHunk) (ls : List BodyLine)
    → (pushed_body o ls).hunk
      ≡ record o.hunk { lines = o.hunk.lines ++ body_lines o.old_next o.new_next ls }
pushed_body-hunk o [] = ap (λ ls. record o.hunk { lines = ls }) (sym (append-nil o.hunk.lines))
pushed_body-hunk o (l ∷ ls) =
    pushed_body-hunk (pushed o l.line_type l.text l.unended) ls
    ∙ ap (λ ls. record o.hunk { lines = ls }) (append_assoc o.hunk.lines _ _)

pub on_lines-body :
    (utf8 : Utf8) (files : List DiffFile) (d : Draft) (o : OpenHunk) (ls : List BodyLine)
    (rest : List (List ℕ))
    → BodyIsSafe ls
    → on_lines utf8 (reading files d (some o)) (print_body ls ++ rest)
      ≡ on_lines utf8 (reading files d (some (pushed_body o ls))) rest
on_lines-body utf8 files d o [] rest h = refl
on_lines-body utf8 files d o (l ∷ ls) rest (h, hs) =
    ap (λ xs. on_lines utf8 (reading files d (some o)) ((mark l.line_type ∷ l.text) ∷ xs))
      (append_assoc (unended_lines l.unended) (print_body ls) rest)
    ∙ on_lines-line utf8 files d o l (print_body ls ++ rest) h
    ∙ on_lines-body utf8 files d (pushed o l.line_type l.text l.unended) ls rest hs
