-- ===== src/Broker/Config/Outside.antt =====
-- broker/src/config.ts: what its tests of paths mean.
use muti_repo_workspace.Prelude.{
  ℕ, true, false, none, some, List, [], ◌∷◌, ◌++◌, ◌≡◌, ◌≢◌, ◌⊎◌, inl, inr, refl, sym, subst, arith,
}
use muti_repo_workspace.Text.{codes_eq, codes_eq_refl, starts_with}
use muti_repo_workspace.Broker.Config.{
  with_sep, is_within, Disk, Roots, is_inside, real_or_resolved,
}

pub starts_with-append : (t rest : List ℕ) → starts_with (t ++ rest) t ≡ true
unfolding starts_with
starts_with-append [] [] = refl
starts_with-append [] (c ∷ rest) = refl
starts_with-append (b ∷ t) rest = ground (arith, starts_with-append t rest)

-- The path is not the root, and no path below it.
pub record IsApart (p root : List ℕ) : Type 0 where
  pub other : p ≢ root
  pub not_below : (rest : List ℕ) → p ≢ with_sep root ++ rest

pub is_within-IsApart : (p root : List ℕ) → is_within p root ≡ false → IsApart p root
unfolding is_within
is_within-IsApart p root h = record {
  other = λ e. let same = subst (λ q. codes_eq p q ≡ true) e (codes_eq_refl p) in ground arith;
  not_below = λ rest e.
      let below =
        subst (λ q. starts_with q (with_sep root) ≡ true) (sym e)
          (starts_with-append (with_sep root) rest) in
      ground arith;
}

module _ {W P : Type 0} (disk : Disk W P) (roots : Roots) (w : W) where
  -- Where the path really lies: its links followed, or the resolved path of one that does not exist.
  abbrev pub LiesAt : List ℕ → List ℕ → Type 0
  LiesAt p r = (disk.realpath p w ≡ some r) ⊎ ((disk.realpath p w ≡ none) × (r ≡ disk.resolve p))

  real_or_resolved-LiesAt : (p r : List ℕ) → LiesAt p r → real_or_resolved disk roots p w ≡ r
  real_or_resolved-LiesAt p r (inl real) = rw (real, real_or_resolved) refl
  real_or_resolved-LiesAt p r (inr (gone, same)) = rw (gone, real_or_resolved) (sym same)

  pub is_inside-IsApart :
      (p root r q : List ℕ)
      → is_inside disk roots p root w ≡ false
      → LiesAt p r
      → LiesAt root q
      → IsApart r q
  unfolding is_inside
  is_inside-IsApart p root r q h lies root_lies = is_within-IsApart r q (
      subst (λ y. is_within r y ≡ false) (real_or_resolved-LiesAt root q root_lies)
        (subst (λ x. is_within x (real_or_resolved disk roots root w) ≡ false)
          (real_or_resolved-LiesAt p r lies) h))
