-- ===== src/Diff/Quoting/RoundTrip.antt =====
-- serve/src/diff.ts, lines 70 to 140: reading back the paths that git quotes.
use Prim.Native.Nat.{◌%◌, ◌/◌}
use muti_repo_workspace.Prelude.{
  ℕ, ◌+◌, ◌*◌, ◌<◌, Bool, true, false, Option, none, some, List, [], ◌∷◌, ◌++◌, All, length,
  length-append, leb, ltb, ◌&&◌, ◌==◌, ◌≡◌, refl, arith, ap, ◌∙◌, if◌then◌else◌,
}
use mathlib.Core.List.{reverse, reverse-append, reverse-reverse, reverse-cons}
use muti_repo_workspace.Text.{trim, trim_start, is_space, starts_with}
use muti_repo_workspace.Text.Slices.{drop, drop_last, ends_with}
use muti_repo_workspace.Diff.Quoting.{
  Utf8, simple, is_octal, Escaping, plain, escaped, octal, plain_unit, escaped_unit, octal_unit,
  unit, unescape, unquote_trimmed, unquote_git_path,
}

-- The letter behind the backslash of a byte that git escapes with one.
abbrev pub letter : ℕ → Option ℕ
letter b =
    if b == 0x07
    then some b'a'
    else if b == 0x08
    then some b'b'
    else if b == 0x09
    then some b't'
    else if b == 0x0a
    then some b'n'
    else if b == 0x0b
    then some b'v'
    else if b == 0x0c
    then some b'f'
    else if b == 0x0d
    then some b'r'
    else if b == 0x22
    then some b'"'
    else if b == 0x5c
    then some b'\\'
    else none

abbrev pub is_printable : ℕ → Bool
is_printable b = leb 0x20 b && ltb b 0x7f

abbrev pub unlettered : Bool → ℕ → List ℕ
unlettered true b = b ∷ []
unlettered false b = b'\\' ∷ (b'0' + b / 64) ∷ (b'0' + b / 8 % 8) ∷ (b'0' + b % 8) ∷ []

abbrev pub quoted_by : Option ℕ → ℕ → List ℕ
quoted_by (some c) b = b'\\' ∷ c ∷ []
quoted_by none b = unlettered (is_printable b) b

-- A byte as git quotes it: by a letter, as it is where it is printable, or in three octal digits.
unfoldable pub quote_byte : ℕ → List ℕ
quote_byte b = quoted_by (letter b) b

unfoldable pub quote_bytes : List ℕ → List ℕ
unfolding quote_byte
quote_bytes [] = []
quote_bytes (b ∷ bs) = quote_byte b ++ quote_bytes bs

letter-simple : (b c : ℕ) → letter b ≡ some c → simple c ≡ some b
unfolding simple
letter-simple b c h = ground arith

module _ (utf8 : Utf8) where
  escaped_unit-letter : (b c : ℕ) → simple c ≡ some b → escaped_unit utf8 c ≡ (b ∷ [], plain)
  unfolding escaped_unit
  escaped_unit-letter b c h = ground arith

  escaped_unit-digit : (d : ℕ) → d < 8 → escaped_unit utf8 (b'0' + d) ≡ ([], octal d 1)
  unfolding escaped_unit simple is_octal
  escaped_unit-digit d h = ground arith

  octal_unit-digit :
      (v k d : ℕ) → d < 8 → k < 3 → octal_unit utf8 v k (b'0' + d) ≡ ([], octal (8 * v + d) (k + 1))
  unfolding octal_unit is_octal
  octal_unit-digit v k d h few = ground arith

  plain_unit-printable :
      (b : ℕ) → (b == b'\\') ≡ false → ltb b 0x80 ≡ true → plain_unit utf8 b ≡ (b ∷ [], plain)
  unfolding plain_unit
  plain_unit-printable b h k = ground arith

  plain_unit-escape : plain_unit utf8 b'\\' ≡ ([], escaped)
  unfolding plain_unit
  plain_unit-escape = refl

  unescape-unit :
      (m : Escaping) (c : ℕ) (s bs : List ℕ) (m' : Escaping)
      → unit utf8 m c ≡ (bs, m')
      → unescape utf8 m (c ∷ s) ≡ bs ++ unescape utf8 m' s
  unfolding unescape
  unescape-unit m c s bs m' e = ap (λ p. p.0 ++ unescape utf8 p.1 s) e

  unescape-escape : (s : List ℕ) → unescape utf8 plain (b'\\' ∷ s) ≡ unescape utf8 escaped s
  unescape-escape s = unescape-unit plain b'\\' s [] escaped plain_unit-escape

  -- Behind three digits an octal escape has ended.
  unescape-three :
      (v : ℕ) (s : List ℕ) → unescape utf8 (octal v 3) s ≡ v % 256 ∷ unescape utf8 plain s
  unfolding unescape octal_unit
  unescape-three v [] = refl
  unescape-three v (c ∷ s) = refl

  unescape-octal :
      (x y z : ℕ) (s : List ℕ)
      → x < 8
      → y < 8
      → z < 8
      → unescape utf8 plain (b'\\' ∷ (b'0' + x) ∷ (b'0' + y) ∷ (b'0' + z) ∷ s)
        ≡ (8 * (8 * x + y) + z) % 256 ∷ unescape utf8 plain s
  unescape-octal x y z s hx hy hz =
      let third = (b'0' + z) ∷ s in
      let second = (b'0' + y) ∷ third in
      unescape-escape ((b'0' + x) ∷ second)
      ∙ unescape-unit escaped (b'0' + x) second [] (octal x 1) (escaped_unit-digit x hx)
      ∙ unescape-unit (octal x 1) (b'0' + y) third [] (octal (8 * x + y) 2)
          (octal_unit-digit x 1 y hy (omega arith))
      ∙ unescape-unit (octal (8 * x + y) 2) (b'0' + z) s [] (octal (8 * (8 * x + y) + z) 3)
          (octal_unit-digit (8 * x + y) 2 z hz (omega arith))
      ∙ unescape-three (8 * (8 * x + y) + z) s

  unescape-unlettered :
      (printable : Bool) (b : ℕ) (s : List ℕ)
      → b < 256
      → letter b ≡ none
      → is_printable b ≡ printable
      → unescape utf8 plain (unlettered printable b ++ s) ≡ b ∷ unescape utf8 plain s
  unescape-unlettered true b s h e k =
      unescape-unit plain b s (b ∷ []) plain (plain_unit-printable b (ground arith) (ground arith))
  unescape-unlettered false b s h e k =
      unescape-octal (b / 64) (b / 8 % 8) (b % 8) s (omega arith) (omega arith) (omega arith)
      ∙ ap (λ n. n ∷ unescape utf8 plain s) (omega arith)

  unescape-quoted_by :
      (o : Option ℕ) (b : ℕ) (s : List ℕ)
      → b < 256
      → letter b ≡ o
      → unescape utf8 plain (quoted_by o b ++ s) ≡ b ∷ unescape utf8 plain s
  unescape-quoted_by (some c) b s h e =
      unescape-escape (c ∷ s)
      ∙ unescape-unit escaped c s (b ∷ []) plain (escaped_unit-letter b c (letter-simple b c e))
  unescape-quoted_by none b s h e = unescape-unlettered (is_printable b) b s h e refl

  -- One byte read back, whatever follows.
  unescape-quote_byte :
      (b : ℕ) (s : List ℕ)
      → b < 256
      → unescape utf8 plain (quote_byte b ++ s) ≡ b ∷ unescape utf8 plain s
  unfolding quote_byte
  unescape-quote_byte b s h = unescape-quoted_by (letter b) b s h refl

  pub unescape-quote_bytes :
      (bs : List ℕ) → All (λ b. b < 256) bs → unescape utf8 plain (quote_bytes bs) ≡ bs
  unfolding quote_bytes unescape
  unescape-quote_bytes [] h = refl
  unescape-quote_bytes (b ∷ bs) (h, hs) =
      unescape-quote_byte b (quote_bytes bs) h ∙ ap (λ s. b ∷ s) (unescape-quote_bytes bs hs)

abbrev pub in_quotes : List ℕ → List ℕ
in_quotes s = b'"' ∷ (s ++ (b'"' ∷ []))

reverse-in_quotes : (s : List ℕ) → reverse (in_quotes s) ≡ in_quotes (reverse s)
reverse-in_quotes s =
    reverse-cons b'"' (s ++ (b'"' ∷ [])) ∙ ap (λ t. t ++ (b'"' ∷ [])) (reverse-append s (b'"' ∷ []))

trim-in_quotes : (s : List ℕ) → trim (in_quotes s) ≡ in_quotes s
unfolding trim trim_start is_space
trim-in_quotes s =
    ap (λ t. reverse (trim_start t)) (reverse-in_quotes s)
    ∙ reverse-in_quotes (reverse s)
    ∙ ap in_quotes (reverse-reverse s)

ends_with-in_quotes : (s : List ℕ) → ends_with (in_quotes s) (b'"' ∷ []) ≡ true
unfolding ends_with starts_with
ends_with-in_quotes s = ap (λ t. starts_with t (b'"' ∷ [])) (reverse-in_quotes s)

leb-in_quotes : (s : List ℕ) → leb 2 (length (in_quotes s)) ≡ true
leb-in_quotes s = ground (arith, length-append s (b'"' ∷ []))

drop_last-in_quotes : (s : List ℕ) → drop_last 1 (drop 1 (in_quotes s)) ≡ s
unfolding drop_last drop
drop_last-in_quotes s =
    ap (λ t. reverse (drop 1 t)) (reverse-append s (b'"' ∷ [])) ∙ reverse-reverse s

unquote_trimmed-in_quotes :
    (utf8 : Utf8) (s : List ℕ)
    → unquote_trimmed utf8 (in_quotes s) ≡ utf8.decode (unescape utf8 plain s)
unfolding unquote_trimmed starts_with
unquote_trimmed-in_quotes utf8 s =
    ground (arith, leb-in_quotes s, ends_with-in_quotes s, drop_last-in_quotes s)

-- A path that git has quoted is read back as the text of its bytes, whatever they are.
pub unquote_git_path-quote_bytes :
    (utf8 : Utf8) (bs : List ℕ)
    → All (λ b. b < 256) bs
    → unquote_git_path utf8 (in_quotes (quote_bytes bs)) ≡ utf8.decode bs
unfolding unquote_git_path
unquote_git_path-quote_bytes utf8 bs h =
    ap (unquote_trimmed utf8) (trim-in_quotes (quote_bytes bs))
    ∙ unquote_trimmed-in_quotes utf8 (quote_bytes bs)
    ∙ ap utf8.decode (unescape-quote_bytes utf8 bs h)
