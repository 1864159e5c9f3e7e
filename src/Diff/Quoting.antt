-- ===== src/Diff/Quoting.antt =====
-- serve/src/diff.ts, lines 70 to 140: the paths that git quotes.

pub mod RoundTrip
use mathlib.Core.List.{reverse}
use Prim.Native.Nat.{◌%◌}
use muti_repo_workspace.Prelude.{
  ℕ, ◌+◌, ◌-◌, ◌*◌, Bool, true, false, ◌&&◌, Option, none, some, List, [], ◌∷◌, ◌++◌, leb, ltb,
  ◌==◌, length, if◌then◌else◌,
}
use muti_repo_workspace.Text.{trim, starts_with}
use muti_repo_workspace.Text.Slices.{drop, drop_last, ends_with}

-- Node's `Buffer`: the UTF-8 bytes of a text of one code unit, and the text of a list of bytes.
pub record Utf8 : Type 0 where
  pub encode : ℕ → List ℕ
  pub decode : List ℕ → List ℕ

-- Where the closing quote stands, from the index `i` on; the flag says that the unit in front is an
-- escaping backslash.
unfoldable pub closing_from : Bool → ℕ → List ℕ → Option ℕ
closing_from escaped i [] = none
closing_from true i (c ∷ s) = closing_from false (i + 1) s
closing_from false i (c ∷ s) =
    let later = closing_from (c == b'\\') (i + 1) s in if c == b'"' then some i else later

unfoldable pub find_closing_quote : List ℕ → ℕ → Option ℕ
unfolding closing_from drop
find_closing_quote s open_at = closing_from false (open_at + 1) (drop (open_at + 1) s)

-- The table `simple`.
unfoldable pub simple : ℕ → Option ℕ
simple n =
    if n == b'n'
    then some 0x0a
    else if n == b't'
    then some 0x09
    else if n == b'"'
    then some 0x22
    else if n == b'\\'
    then some 0x5c
    else if n == b'a'
    then some 0x07
    else if n == b'b'
    then some 0x08
    else if n == b'f'
    then some 0x0c
    else if n == b'v'
    then some 0x0b
    else if n == b'r'
    then some 0x0d
    else none

unfoldable pub is_octal : ℕ → Bool
is_octal c = leb b'0' c && leb c b'7'

-- Where the loop over `inner` stands: at a unit, behind a backslash, or behind digits of an octal
-- escape with their value and number.
pub data Escaping : Type 0 where
  plain escaped : Escaping
  octal : ℕ → ℕ → Escaping

module _ (utf8 : Utf8) where
  -- A unit that no escape has taken: the bytes pushed, and where the loop stands behind it.
  unfoldable pub plain_unit : ℕ → List ℕ × Escaping
  plain_unit c =
      if c == b'\\'
      then ([], escaped)
      else if ltb c 0x80
      then (c ∷ [], plain)
      else (utf8.encode c, plain)

  unfoldable pub escaped_unit : ℕ → List ℕ × Escaping
  unfolding simple is_octal
  escaped_unit n = elim (simple n) [
    | some b ↦ (b ∷ [], plain)
    | none ↦ if is_octal n then ([], octal (n - b'0') 1) else (n ∷ [], plain)
  ]

  unfoldable pub octal_unit : ℕ → ℕ → ℕ → List ℕ × Escaping
  unfolding is_octal plain_unit
  octal_unit v k c =
      if ltb k 3 && is_octal c
      then ([], octal (8 * v + (c - b'0')) (k + 1))
      else (v % 256 ∷ (plain_unit c).0, (plain_unit c).1)

  abbrev pub unit : Escaping → ℕ → List ℕ × Escaping
  unit plain c = plain_unit c
  unit escaped c = escaped_unit c
  unit (octal v k) c = octal_unit v k c

  -- A backslash at the end is kept.
  abbrev pub at_end : Escaping → List ℕ
  at_end plain = []
  at_end escaped = b'\\' ∷ []
  at_end (octal v k) = v % 256 ∷ []

  -- The bytes that the loop over `inner` pushes.
  unfoldable pub unescape : Escaping → List ℕ → List ℕ
  unfolding plain_unit escaped_unit octal_unit
  unescape m [] = at_end m
  unescape m (c ∷ s) = (unit m c).0 ++ unescape (unit m c).1 s

  unfoldable pub unquote_trimmed : List ℕ → List ℕ
  unfolding unescape starts_with ends_with drop_last drop
  unquote_trimmed s =
      if leb 2 (length s) && (starts_with s (b'"' ∷ []) && ends_with s (b'"' ∷ []))
      then utf8.decode (unescape plain (drop_last 1 (drop 1 s)))
      else s

  unfoldable pub unquote_git_path : List ℕ → List ℕ
  unfolding unquote_trimmed trim
  unquote_git_path raw = unquote_trimmed (trim raw)
