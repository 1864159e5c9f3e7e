-- ===== src/Text.antt =====
-- Texts as code points: the JavaScript string operations that several files share.
pub mod Slices
pub mod Numbers
use Prim.Native.Char.{code}
use mathlib.Core.List.{reverse}
use muti_repo_workspace.Prelude.{
  ℕ, ◌≡◌, refl, arith, String, Bool, true, false, ◌&&◌, ◌||◌, List, [], ◌∷◌, leb, ◌==◌,
  if◌then◌else◌,
}

abbrev pub codes : String → List ℕ
codes String.[] = []
codes (String.◌∷◌ c s) = code c ∷ codes s

-- The white space and line terminators that `trim` removes.
unfoldable pub is_space : ℕ → Bool
is_space c =
    (leb 9 c && leb c 13)
    || c == 32
    || c == 160
    || c == 0x1680
    || (leb 0x2000 c && leb c 0x200a)
    || c == 0x2028
    || c == 0x2029
    || c == 0x202f
    || c == 0x205f
    || c == 0x3000
    || c == 0xfeff

unfoldable pub trim_start : List ℕ → List ℕ
unfolding is_space
trim_start [] = []
trim_start (c ∷ s) = if is_space c then trim_start s else c ∷ s

unfoldable pub trim : List ℕ → List ℕ
unfolding trim_start
trim s = reverse (trim_start (reverse (trim_start s)))

-- `/^y(es)?$/i`
unfoldable pub is_y_or_yes : List ℕ → Bool
is_y_or_yes (y ∷ []) = y == b'y' || y == b'Y'
is_y_or_yes (y ∷ e ∷ s ∷ []) =
    (y == b'y' || y == b'Y') && (e == b'e' || e == b'E') && (s == b's' || s == b'S')
is_y_or_yes _ = false

unfoldable pub codes_eq : List ℕ → List ℕ → Bool
codes_eq [] [] = true
codes_eq (a ∷ s) (b ∷ t) = a == b && codes_eq s t
codes_eq _ _ = false

pub codes_eq_sound : (s t : List ℕ) → codes_eq s t ≡ true → s ≡ t
unfolding codes_eq
codes_eq_sound [] [] h = refl
codes_eq_sound [] (b ∷ t) h = cc
codes_eq_sound (a ∷ s) [] h = cc
codes_eq_sound (a ∷ s) (b ∷ t) h = ground (arith, codes_eq_sound s t)

pub codes_eq_refl : (s : List ℕ) → codes_eq s s ≡ true
unfolding codes_eq
codes_eq_refl [] = refl
codes_eq_refl (a ∷ s) = ground (arith, codes_eq_refl s)

unfoldable pub starts_with : List ℕ → List ℕ → Bool
starts_with s [] = true
starts_with [] (b ∷ t) = false
starts_with (a ∷ s) (b ∷ t) = a == b && starts_with s t
