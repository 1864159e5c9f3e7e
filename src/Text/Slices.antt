-- ===== src/Text/Slices.antt =====
-- JavaScript's `startsWith`, `endsWith`, `slice`, `indexOf` and `split` on texts as code units.
use mathlib.Core.List.{reverse}
use muti_repo_workspace.Prelude.{
  ℕ, zero, suc, Bool, Option, none, some, List, [], ◌∷◌, map, ◌==◌, if◌then◌else◌,
}
use muti_repo_workspace.Text.{starts_with}

module _ {ℓ κ} {A : Type ℓ} {B : Type κ} where
  unfoldable pub ◌>>=◌ : Option A → (A → Option B) → Option B
  none >>= f = none
  some a >>= f = f a

  infixl 1 ◌>>=◌

module _ {ℓ} {A : Type ℓ} where
  unfoldable pub or_else : Option A → Option A → Option A
  or_else none o = o
  or_else (some a) o = some a

unfoldable pub drop : ℕ → List ℕ → List ℕ
drop zero s = s
drop (suc n) [] = []
drop (suc n) (c ∷ s) = drop n s

unfoldable pub take : ℕ → List ℕ → List ℕ
take zero s = []
take (suc n) [] = []
take (suc n) (c ∷ s) = c ∷ take n s

-- `s.slice(0, -n)` for a positive n
unfoldable pub drop_last : ℕ → List ℕ → List ℕ
unfolding drop
drop_last n s = reverse (drop n (reverse s))

unfoldable pub ends_with : List ℕ → List ℕ → Bool
unfolding starts_with
ends_with s t = starts_with (reverse s) (reverse t)

-- What follows the prefix, where the text starts with it.
unfoldable pub strip_prefix : List ℕ → List ℕ → Option (List ℕ)
strip_prefix [] s = some s
strip_prefix (a ∷ p) [] = none
strip_prefix (a ∷ p) (c ∷ s) = if a == c then strip_prefix p s else none

abbrev pub before_with : ℕ → List ℕ × List ℕ → List ℕ × List ℕ
before_with c (before, after) = (c ∷ before, after)

-- Every place where a text that is not empty occurs, as what stands before it and after it.
unfoldable pub splits : List ℕ → List ℕ → List (List ℕ × List ℕ)
unfolding strip_prefix
splits sep [] = []
splits sep (c ∷ s) =
    let later = map (before_with c) (splits sep s) in
    elim (strip_prefix sep (c ∷ s)) [ none ↦ later | some after ↦ ([], after) ∷ later ]

abbrev pub first {ℓ} : {A : Type ℓ} → List A → Option A
first [] = none
first (x ∷ xs) = some x

abbrev pub cons_first : ℕ → List (List ℕ) → List (List ℕ)
cons_first c [] = (c ∷ []) ∷ []
cons_first c (l ∷ ls) = (c ∷ l) ∷ ls

-- `split("\n")`
unfoldable pub split_lines : List ℕ → List (List ℕ)
split_lines [] = [] ∷ []
split_lines (c ∷ s) =
    let rest = split_lines s in if c == b'\n' then [] ∷ rest else cons_first c rest

-- `split(sep)` for a separator of one unit, without the empty parts.
unfoldable pub split_on : ℕ → List ℕ → List (List ℕ)
split_on sep [] = [] ∷ []
split_on sep (c ∷ s) =
    let rest = split_on sep s in if c == sep then [] ∷ rest else cons_first c rest

unfoldable pub drop_empty : List (List ℕ) → List (List ℕ)
drop_empty [] = []
drop_empty ([] ∷ parts) = drop_empty parts
drop_empty ((c ∷ s) ∷ parts) = (c ∷ s) ∷ drop_empty parts
