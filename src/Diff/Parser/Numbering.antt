-- ===== src/Diff/Parser/Numbering.antt =====
-- serve/src/diff.ts: the line numbers that the parser gives, for every input.
use muti_repo_workspace.Prelude.{
  ℕ, ◌+◌, Bool, true, false, not, Option, none, some, List, [], ◌∷◌, ◌++◌, map, All, All-append,
  if◌then◌else◌, ◌≡◌, refl, arith, ap, ◌∙◌, sym, subst, Bool-cases, Option-cases, inl, inr, ◌==◌,
}
use muti_repo_workspace.Text.{codes, starts_with}
use muti_repo_workspace.Text.Slices.{split_lines}
use muti_repo_workspace.Diff.{DiffLineType, DiffLine, DiffHunk, DiffFile}
use muti_repo_workspace.Diff.Quoting.{Utf8}
use muti_repo_workspace.Diff.Draft.{
  HunkRange, parse_hunk_header, Draft, new_draft, finalize_draft, count_lines, is_add, is_del,
}
use muti_repo_workspace.Diff.Headers.{header_line}
use muti_repo_workspace.Diff.Headers.Kept.{header_line-hunks}
use muti_repo_workspace.Diff.Parser.{
  OpenHunk, Parsing, flush_hunk, files_with, flush_draft, open_hunk, mark_last, push_add, push_del,
  push_context, mark_no_newline, content_line, on_content, on_hunk_line, on_file_line, on_line,
  on_lines, no_files, drop_return, parse_lines, parse_unified_diff,
}

-- Whether a line stands in the old file, and in the new one.
abbrev pub is_old : DiffLineType → Bool
is_old t = not (is_add t)

abbrev pub is_new : DiffLineType → Bool
is_new t = not (is_del t)

abbrev pub number : Bool → ℕ → Option ℕ
number true n = some n
number false n = none

abbrev pub next_number : Bool → ℕ → ℕ
next_number true n = n + 1
next_number false n = n

-- Every line has the next number of each side that it stands on, and none on the other.
abbrev pub IsNumbered : ℕ → ℕ → List DiffLine → Type 0
IsNumbered o n [] = Unit
IsNumbered o n (l ∷ ls) =
    (l.old_no ≡ number (is_old l.line_type) o)
    × (l.new_no ≡ number (is_new l.line_type) n)
    × IsNumbered (next_number (is_old l.line_type) o) (next_number (is_new l.line_type) n) ls

abbrev pub HunkIsNumbered : DiffHunk → Type 0
HunkIsNumbered h = IsNumbered h.old_start h.new_start h.lines

abbrev pub FileIsNumbered : DiffFile → Type 0
FileIsNumbered f = All HunkIsNumbered f.hunks

abbrev OpenIsNumbered : OpenHunk → Type 0
OpenIsNumbered o =
    HunkIsNumbered o.hunk
    × (o.old_next ≡ o.hunk.old_start + count_lines is_old o.hunk.lines)
    × (o.new_next ≡ o.hunk.new_start + count_lines is_new o.hunk.lines)

abbrev HunkFits : Option OpenHunk → Type 0
HunkFits none = Unit
HunkFits (some o) = OpenIsNumbered o

abbrev DraftFits : Option Draft → Type 0
DraftFits none = Unit
DraftFits (some d) = All HunkIsNumbered d.hunks

abbrev Fits : Parsing → Type 0
Fits s = All FileIsNumbered s.files × DraftFits s.draft × HunkFits s.hunk

next_number_count : (b : Bool) (o n : ℕ) → o + ((if b then 1 else 0) + n) ≡ next_number b o + n
next_number_count true o n = omega arith
next_number_count false o n = omega arith

next_number_if : (b : Bool) (n : ℕ) → next_number b n ≡ n + (if b then 1 else 0)
next_number_if true n = refl
next_number_if false n = omega arith

-- A line that is numbered behind the last one may be pushed.
push-IsNumbered :
    (o n o' n' : ℕ) (ls : List DiffLine) (l : DiffLine)
    → IsNumbered o n ls
    → o' ≡ o + count_lines is_old ls
    → n' ≡ n + count_lines is_new ls
    → l.old_no ≡ number (is_old l.line_type) o'
    → l.new_no ≡ number (is_new l.line_type) n'
    → IsNumbered o n (ls ++ (l ∷ []))
unfolding count_lines
push-IsNumbered o n o' n' [] l h eo en p q =
    let eo' : o' ≡ o = omega arith in
    let en' : n' ≡ n = omega arith in
    (p ∙ ap (number (is_old l.line_type)) eo', q ∙ ap (number (is_new l.line_type)) en', tt)
push-IsNumbered o n o' n' (k ∷ ls) l (a, b, h) eo en p q =
    let eo' = eo ∙ next_number_count (is_old k.line_type) o (count_lines is_old ls) in
    let en' = en ∙ next_number_count (is_new k.line_type) n (count_lines is_new ls) in
    (
      a,
      b,
      push-IsNumbered (next_number (is_old k.line_type) o) (next_number (is_new k.line_type) n) o'
          n' ls l h eo' en' p q,
    )

count_lines-push :
    (f : DiffLineType → Bool) (ls : List DiffLine) (l : DiffLine)
    → count_lines f (ls ++ (l ∷ [])) ≡ count_lines f ls + (if f l.line_type then 1 else 0)
unfolding count_lines
count_lines-push f [] l = omega arith
count_lines-push f (k ∷ ls) l = omega (arith, count_lines-push f ls l)

mark_last-IsNumbered :
    (o n : ℕ) (ls : List DiffLine) → IsNumbered o n ls → IsNumbered o n (mark_last ls)
unfolding mark_last
mark_last-IsNumbered o n [] h = tt
mark_last-IsNumbered o n (l ∷ []) h = h
mark_last-IsNumbered o n (l ∷ k ∷ ls) (a, b, h) = (
  a,
  b,
  mark_last-IsNumbered (next_number (is_old l.line_type) o) (next_number (is_new l.line_type) n)
      (k ∷ ls) h,
)

count_lines-mark_last :
    (f : DiffLineType → Bool) (ls : List DiffLine) → count_lines f (mark_last ls) ≡ count_lines f ls
unfolding count_lines mark_last
count_lines-mark_last f [] = refl
count_lines-mark_last f (l ∷ []) = refl
count_lines-mark_last f (l ∷ k ∷ ls) = omega (arith, count_lines-mark_last f (k ∷ ls))

module _ (o : OpenHunk) (h : OpenIsNumbered o) where
  -- A line that has the next numbers is pushed, and the next numbers go on.
  pushed-Numbered :
      (l : DiffLine)
      → l.old_no ≡ number (is_old l.line_type) o.old_next
      → l.new_no ≡ number (is_new l.line_type) o.new_next
      → OpenIsNumbered (record {
        hunk = record o.hunk { lines = o.hunk.lines ++ (l ∷ []) };
        old_next = next_number (is_old l.line_type) o.old_next;
        new_next = next_number (is_new l.line_type) o.new_next;
      })
  pushed-Numbered l p q =
      let (given, old, new) = h in
      (
        push-IsNumbered o.hunk.old_start o.hunk.new_start o.old_next o.new_next o.hunk.lines l given
            old new p q,
        omega (
          arith,
          next_number_if (is_old l.line_type) o.old_next,
          count_lines-push is_old o.hunk.lines l,
        ),
        omega (
          arith,
          next_number_if (is_new l.line_type) o.new_next,
          count_lines-push is_new o.hunk.lines l,
        ),
      )

  mark_no_newline-Numbered : OpenIsNumbered (mark_no_newline o)
  unfolding mark_no_newline
  mark_no_newline-Numbered =
      let (given, old, new) = h in
      (
        mark_last-IsNumbered o.hunk.old_start o.hunk.new_start o.hunk.lines given,
        omega (arith, count_lines-mark_last is_old o.hunk.lines),
        omega (arith, count_lines-mark_last is_new o.hunk.lines),
      )

  content_line-Numbered : (line : List ℕ) → HunkFits (content_line o line)
  unfolding content_line push_add push_del push_context
  content_line-Numbered [] = tt
  content_line-Numbered (m ∷ t) = elim (Bool-cases (m == b'\\')) [
    | inl e ↦ rw e mark_no_newline-Numbered
    | inr e ↦ rw e (elim (Bool-cases (m == b'+')) [
      | inl e ↦ rw e (pushed-Numbered _ refl refl)
      | inr e ↦ rw e (elim (Bool-cases (m == b'-')) [
        | inl e ↦ rw e (pushed-Numbered _ refl refl)
        | inr e ↦ rw e (elim (Bool-cases (m == b' ')) [
          | inl e ↦ rw e (pushed-Numbered _ refl refl)
          | inr e ↦ rw e tt
        ])
      ])
    ])
  ]

open_hunk-Numbered : (line : List ℕ) (r : HunkRange) → OpenIsNumbered (open_hunk line r)
unfolding open_hunk count_lines
open_hunk-Numbered line r = (tt, omega arith, omega arith)

flush_hunk-Fits : (s : Parsing) → Fits s → Fits (flush_hunk s)
unfolding flush_hunk
flush_hunk-Fits s fits = go s.draft s.hunk fits
  where
    go :
        (d : Option Draft) (o : Option OpenHunk)
        → All FileIsNumbered s.files × DraftFits d × HunkFits o
        → Fits (flush_hunk (record s { draft = d; hunk = o }))
    go d none h = h
    go none (some o) h = h
    go (some d) (some o) (files, hunks, numbered) =
        (files, All-append HunkIsNumbered d.hunks (o.hunk ∷ []) hunks (numbered.0, tt), tt)

flush_draft-Fits : (utf8 : Utf8) (s : Parsing) → Fits s → Fits (flush_draft utf8 s)
unfolding flush_draft finalize_draft
flush_draft-Fits utf8 s fits =
    go (flush_hunk s).files (flush_hunk s).draft (flush_hunk s).hunk (flush_hunk-Fits s fits)
  where
    go :
        (files : List DiffFile) (d : Option Draft) (o : Option OpenHunk)
        → All FileIsNumbered files × DraftFits d × HunkFits o
        → All FileIsNumbered (files_with utf8 files d) × Unit {0} × HunkFits o
    go files none o (numbered, _, open_fits) = (numbered, tt, open_fits)
    go files (some d) o (numbered, hunks, open_fits) = (
      All-append FileIsNumbered files (finalize_draft utf8 d ∷ []) numbered (hunks, tt),
      tt,
      open_fits,
    )

open-Fits : (s : Parsing) (o : Option OpenHunk) → Fits s → HunkFits o → Fits (record s { hunk = o })
open-Fits s o (files, hunks, _) h = (files, hunks, h)

draft-Fits : (s : Parsing) (d : Option Draft) → Fits s → DraftFits d → Fits (record s { draft = d })
draft-Fits s d (files, _, o) h = (files, h, o)

on_content-Fits :
    (o : OpenHunk) (line : List ℕ) (s : Parsing)
    → OpenIsNumbered o
    → Fits s
    → Fits (on_content o line s)
unfolding on_content
on_content-Fits o line s h fits =
    elim (content_line o line)
        as (λ c.
          HunkFits c
          → Fits (elim c [ some o' ↦ record s { hunk = some o' } | none ↦ flush_hunk s ])) [
            | some o' ↦ λ k. open-Fits s (some o') fits k
            | none ↦ λ k. flush_hunk-Fits s fits
          ]
      (content_line-Numbered o h line)

unopened-Fits :
    (line : List ℕ) (s : Parsing)
    → Fits s
    → Fits (elim s.hunk [ none ↦ s | some o ↦ on_content o line s ])
unopened-Fits line s fits =
    elim s.hunk as (λ h. HunkFits h → Fits (elim h [ none ↦ s | some o ↦ on_content o line s ])) [
      | none ↦ λ h. fits
      | some o ↦ λ h. on_content-Fits o line s h fits
    ]
      fits.2

on_hunk_line-Fits : (line : List ℕ) (s : Parsing) → Fits s → Fits (on_hunk_line line s)
unfolding on_hunk_line
on_hunk_line-Fits line s fits = elim (Option-cases (parse_hunk_header line)) [
  | inl e ↦ rw e (unopened-Fits line s fits)
  | inr (r, e) ↦ rw e (
      open-Fits (flush_hunk s) (some (open_hunk line r)) (flush_hunk-Fits s fits)
        (open_hunk-Numbered line r))
]

module _ (utf8 : Utf8) where
  on_file_line-Fits :
      (d : Draft) (line : List ℕ) (s : Parsing)
      → All HunkIsNumbered d.hunks
      → Fits s
      → Fits (on_file_line utf8 d line s)
  unfolding on_file_line
  on_file_line-Fits d line s h fits = elim (Option-cases (header_line utf8 d line)) [
    | inl e ↦ rw e (on_hunk_line-Fits line s fits)
    | inr (d', e) ↦ rw e (
        draft-Fits s (some d') fits
          (subst (All HunkIsNumbered) (sym (header_line-hunks utf8 d line d' e)) h))
  ]

  in_draft-Fits :
      (line : List ℕ) (s : Parsing)
      → Fits s
      → Fits (elim s.draft [ none ↦ s | some d ↦ on_file_line utf8 d line s ])
  in_draft-Fits line s fits =
      elim s.draft
          as (λ d.
            DraftFits d → Fits (elim d [ none ↦ s | some d' ↦ on_file_line utf8 d' line s ])) [
              | none ↦ λ h. fits
              | some d ↦ λ h. on_file_line-Fits d line s h fits
            ]
        fits.1

  on_line-Fits : (s : Parsing) (line : List ℕ) → Fits s → Fits (on_line utf8 s line)
  unfolding on_line new_draft
  on_line-Fits s line fits = elim (Bool-cases (starts_with line (codes "diff --git "))) [
    | inl e ↦
        rw e (
          draft-Fits (flush_draft utf8 s) (some (new_draft line)) (flush_draft-Fits utf8 s fits) tt)
    | inr e ↦ rw e (in_draft-Fits line s fits)
  ]

  on_lines-Fits : (s : Parsing) (ls : List (List ℕ)) → Fits s → Fits (on_lines utf8 s ls)
  unfolding on_lines
  on_lines-Fits s [] fits = fits
  on_lines-Fits s (l ∷ ls) fits = on_lines-Fits (on_line utf8 s l) ls (on_line-Fits s l fits)

  parse_lines-Numbered : (ls : List (List ℕ)) → All FileIsNumbered (parse_lines utf8 ls).files
  unfolding parse_lines
  parse_lines-Numbered ls =
      (flush_draft-Fits utf8 (on_lines utf8 no_files ls) (on_lines-Fits no_files ls (tt, tt, tt))).0

  -- For every text, each line of each hunk has the next line number of every side that it stands
  -- on, counted from the hunk's two starts, and no number on the other side.
  pub parse_unified_diff-Numbered :
      (text : List ℕ) → All FileIsNumbered (parse_unified_diff utf8 text).files
  unfolding parse_unified_diff
  parse_unified_diff-Numbered [] = tt
  parse_unified_diff-Numbered (c ∷ text) =
      parse_lines-Numbered (map drop_return (split_lines (c ∷ text)))
