-- ===== src/Prelude/Maps.antt =====
-- A JavaScript `Map` or `Record` with text keys: an association list in insertion order. Setting a
-- present key keeps its place.
use Prim.Native.String.{String}
use mathlib.Core.Path.{◌≡◌, refl}
use mathlib.Core.Option.{Option, none, some}
use mathlib.Core.Option as Option
use mathlib.Core.List.{List, [], ◌∷◌}
use native.Mathlib.Omega.{arith}
use text.Mathlib.TextEquality.{eq_iff}
use muti_repo_workspace.Prelude.Tests.{str_eq, if◌then◌else◌}

abbrev pub Dict {ℓ} : Type ℓ → Type ℓ
Dict V = List (String × V)

module _ {ℓ} {V : Type ℓ} where
  -- `map.get(k)`; `undefined` is `none`.
  unfoldable pub lookup : String → Dict V → Option V
  lookup k [] = none
  lookup k ((j, v) ∷ m) = if str_eq j k then some v else lookup k m

  -- `map.set(k, v)`.
  unfoldable pub put : String → V → Dict V → Dict V
  put k v [] = (k, v) ∷ []
  put k v ((j, w) ∷ m) = if str_eq j k then (j, v) ∷ m else (j, w) ∷ put k v m

  -- A method that mutates the entry which `map.get(k)` returned, if there is one.
  unfoldable pub update : String → (V → V) → Dict V → Dict V
  update k f [] = []
  update k f ((j, w) ∷ m) = if str_eq j k then (j, f w) ∷ m else (j, w) ∷ update k f m

  pub lookup-put :
      (k j : String) (v : V) (m : Dict V)
      → lookup j (put k v m) ≡ (if str_eq k j then some v else lookup j m)
  unfolding lookup put
  lookup-put k j v [] = refl
  lookup-put k j v ((i, w) ∷ m) =
      ground (arith, eq_iff k j, eq_iff i k, eq_iff i j, lookup-put k j v m)

  pub lookup-update :
      (k j : String) (f : V → V) (m : Dict V)
      → lookup j (update k f m) ≡ (if str_eq k j then Option.map f (lookup j m) else lookup j m)
  unfolding lookup update
  lookup-update k j f [] = ground arith
  lookup-update k j f ((i, w) ∷ m) =
      ground (arith, eq_iff k j, eq_iff i k, eq_iff i j, lookup-update k j f m)
