-- ===== src/Diff/Headers/Kept.antt =====
-- serve/src/diff.ts, lines 303 to 379: a header line leaves the hunks of the draft.
use mathlib.Core.Option.{map}
use muti_repo_workspace.Prelude.{
  All, [], ◌∷◌, ℕ, Bool-cases, Option, none, some, List, inl, inr, ◌≡◌, refl, arith, ◌&&◌,
}
use muti_repo_workspace.Text.{codes, codes_eq, starts_with}
use muti_repo_workspace.Text.Slices.{strip_prefix, or_else, ends_with, drop, drop_last}
use muti_repo_workspace.Text.Numbers.{ℤ, pos}
use muti_repo_workspace.Diff.{DiffHunk}
use muti_repo_workspace.Diff.Quoting.{Utf8}
use muti_repo_workspace.Diff.Draft.{Draft}
use muti_repo_workspace.Diff.Headers.{
  first_match, hundred_minus, similar, binary_sides, binary_line, extended_lines, path_lines,
  header_line,
}

-- The draft, where there is one, has these hunks.
data Keeps (hunks : List DiffHunk) : Option Draft → Type 0 where
  no_draft : Keeps hunks none
  kept : (d : Draft) → d.hunks ≡ hunks → Keeps hunks (some d)

or_else-Keeps :
    (hunks : List DiffHunk) (a b : Option Draft)
    → Keeps hunks a
    → Keeps hunks b
    → Keeps hunks (or_else a b)
unfolding or_else
or_else-Keeps hunks none b h k = k
or_else-Keeps hunks (some d) b h k = h

abbrev Handler : Type 0
Handler = List ℕ × (List ℕ → Draft)

first_match-Keeps :
    (hunks : List DiffHunk) (table : List Handler) (line : List ℕ)
    → All (λ (e : Handler). (r : List ℕ) → (e.1 r).hunks ≡ hunks) table
    → Keeps hunks (first_match table line)
unfolding first_match
first_match-Keeps hunks [] line h = no_draft
first_match-Keeps hunks ((p, handle) ∷ later) line (h, hs) =
    or_else-Keeps hunks (map handle (strip_prefix p line)) (first_match later line)
      (handled (strip_prefix p line)) (first_match-Keeps hunks later line hs)
  where
    handled : (o : Option (List ℕ)) → Keeps hunks (map handle o)
    handled none = no_draft
    handled (some r) = kept (handle r) (h r)

similar-hunks : (d : Draft) (percent : ℕ → ℤ) (s : List ℕ) → (similar d percent s).hunks ≡ d.hunks
unfolding similar
similar-hunks d percent s = ground arith

module _ (utf8 : Utf8) (d : Draft) where
  binary_sides-hunks : (body : List ℕ) → (binary_sides utf8 d body).hunks ≡ d.hunks
  unfolding binary_sides
  binary_sides-hunks body = ground arith

  binary_line-Keeps : (line : List ℕ) → Keeps d.hunks (binary_line utf8 d line)
  unfolding binary_line
  binary_line-Keeps line =
      elim (Bool-cases
        (starts_with line (codes "Binary files ") && ends_with line (codes " differ"))) [
          | inl e ↦ rw e (kept _ (binary_sides-hunks (drop 13 (drop_last 7 line))))
          | inr e ↦ rw e (elim (Bool-cases (codes_eq line (codes "GIT binary patch"))) [
            | inl e ↦ rw e (kept _ refl)
            | inr e ↦ rw e no_draft
          ])
        ]

  header_line-Keeps : (line : List ℕ) → Keeps d.hunks (header_line utf8 d line)
  unfolding header_line extended_lines path_lines
  header_line-Keeps line =
      or_else-Keeps d.hunks _ _
        (first_match-Keeps d.hunks (extended_lines utf8 d) line (
          unchanged,
          (
            unchanged,
            (
              unchanged,
              (
                unchanged,
                (
                  unchanged,
                  (
                    unchanged,
                    (
                      unchanged,
                      (
                        unchanged,
                        (similar-hunks d pos, (similar-hunks d hundred_minus, (unchanged, tt))),
                      ),
                    ),
                  ),
                ),
              ),
            ),
          ),
        ))
        (or_else-Keeps d.hunks _ _ (binary_line-Keeps line)
          (first_match-Keeps d.hunks (path_lines utf8 d) line (unchanged, (unchanged, tt))))
    where
      unchanged : (r : List ℕ) → d.hunks ≡ d.hunks
      unchanged r = refl

  pub header_line-hunks :
      (line : List ℕ) (d' : Draft) → header_line utf8 d line ≡ some d' → d'.hunks ≡ d.hunks
  header_line-hunks line d' out = go (header_line utf8 d line) out (header_line-Keeps line)
    where
      go : (o : Option Draft) → o ≡ some d' → Keeps d.hunks o → d'.hunks ≡ d.hunks
      go none e h = cc
      go (some d1) e (kept d2 h) = ground arith
