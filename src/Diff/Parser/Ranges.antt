-- ===== src/Diff/Parser/Ranges.antt =====
-- serve/src/diff.ts: `HUNK_HEADER_RE` on a printed hunk header.
use muti_repo_workspace.Prelude.{
  ℕ, ◌+◌, ◌-◌, ◌*◌, true, Option, none, some, List, [], ◌∷◌, ◌++◌, all, ◌≡◌, refl, arith, ap,
}
use muti_repo_workspace.Text.{codes}
use muti_repo_workspace.Text.Slices.{strip_prefix, ◌>>=◌}
use muti_repo_workspace.Text.Numbers.{is_digit, take_digits, read_number}
use muti_repo_workspace.Diff.Draft.{read_count, is_one_line, parse_hunk_header}
use muti_repo_workspace.Diff.Parser.Printed.{
  Numeral, PrintedHunk, print_numeral, print_count, ranges, value_from, value, lines_of, range,
  IsNumeral, IsCount, IsSide,
}

-- No digit stands at the start of the text.
abbrev NoDigit : List ℕ → Type 0
NoDigit t = (n : ℕ) → take_digits n t ≡ (n, t)

take_digits-value :
    (n : ℕ) (s t : List ℕ)
    → all is_digit s ≡ true
    → NoDigit t
    → take_digits n (s ++ t) ≡ (value_from n s, t)
unfolding take_digits
take_digits-value n [] t h k = k n
take_digits-value n (c ∷ s) t h k =
    let here : is_digit c ≡ true = ground arith in
    rw here (take_digits-value (10 * n + (c - b'0')) s t (ground arith) k)

read_number-value :
    (n : Numeral) (t : List ℕ)
    → IsNumeral n
    → NoDigit t
    → read_number (print_numeral n ++ t) ≡ some (value n, t)
unfolding read_number
read_number-value n t h k =
    let here : is_digit n.first ≡ true = ground arith in
    rw here (ap some (take_digits-value (n.first - b'0') n.rest t (ground arith) k))

blank-NoDigit : (t : List ℕ) → NoDigit (b' ' ∷ t)
unfolding take_digits
blank-NoDigit t n = refl

count-NoDigit : (c : Option Numeral) (t : List ℕ) → NoDigit (print_count c ++ (b' ' ∷ t))
unfolding take_digits
count-NoDigit none t n = refl
count-NoDigit (some k) t n = refl

read_count-value :
    (c : Option Numeral) (t : List ℕ)
    → IsCount c
    → read_count (print_count c ++ (b' ' ∷ t)) ≡ some (lines_of c, b' ' ∷ t)
unfolding read_count strip_prefix
read_count-value none t h = refl
read_count-value (some n) t h = read_number-value n (b' ' ∷ t) h (blank-NoDigit t)

-- The header of a hunk reads as its range.
pub parse_hunk_header-range :
    (h : PrintedHunk)
    → IsSide h.old_range
    → IsSide h.new_range
    → is_one_line h.heading ≡ true
    → parse_hunk_header (codes "@@ -" ++ ranges h) ≡ some (range h)
unfolding parse_hunk_header strip_prefix ◌>>=◌
parse_hunk_header-range h (os, oc) (ns, nc) one =
    let tail : List ℕ = codes "@@" ++ h.heading in
    let new_text : List ℕ =
      b'+'
      ∷ (print_numeral h.new_range.start ++ (print_count h.new_range.count ++ (b' ' ∷ tail))) in
    let e1 =
      read_number-value h.old_range.start (print_count h.old_range.count ++ (b' ' ∷ new_text)) os
        (count-NoDigit h.old_range.count new_text) in
    let e2 = read_count-value h.old_range.count new_text oc in
    let e3 =
      read_number-value h.new_range.start (print_count h.new_range.count ++ (b' ' ∷ tail)) ns
        (count-NoDigit h.new_range.count tail) in
    let e4 = read_count-value h.new_range.count tail nc in rw (e1, e2, e3, e4, one) refl
