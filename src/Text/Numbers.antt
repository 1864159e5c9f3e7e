-- ===== src/Text/Numbers.antt =====
-- Decimal numbers in a text, as `\d+` and `Number` read them.
use muti_repo_workspace.Prelude.{
  ℕ, zero, suc, ◌==◌, ◌+◌, ◌-◌, ◌*◌, Bool, ◌&&◌, Option, none, some, List, [], ◌∷◌, leb,
  if◌then◌else◌,
}

-- A whole number.
pub data ℤ : Type 0 where
  pos negsuc : ℕ → ℤ

unfoldable pub is_digit : ℕ → Bool
is_digit c = leb b'0' c && leb c b'9'

-- The value of the digits read so far, with those in front of the text, and what follows them.
unfoldable pub take_digits : ℕ → List ℕ → ℕ × List ℕ
unfolding is_digit
take_digits n [] = (n, [])
take_digits n (c ∷ s) =
    let rest = take_digits (10 * n + (c - b'0')) s in if is_digit c then rest else (n, c ∷ s)

unfoldable pub read_number : List ℕ → Option (ℕ × List ℕ)
unfolding take_digits
read_number [] = none
read_number (c ∷ s) = if is_digit c then some (take_digits (c - b'0') s) else none

abbrev negated : ℕ → ℤ
negated zero = pos 0
negated (suc n) = negsuc n

abbrev as_number : (ℕ → ℤ) → Option (ℕ × List ℕ) → Option ℤ
as_number sign none = none
as_number sign (some (n, rest)) = some (sign n)

-- `parseInt(s, 10)` of a trimmed text; `none` is `NaN`.
unfoldable pub parse_int : List ℕ → Option ℤ
unfolding read_number
parse_int [] = none
parse_int (c ∷ s) =
    if c == b'-'
    then as_number negated (read_number s)
    else as_number pos (read_number (if c == b'+' then s else c ∷ s))
