-- ===== src/Triage.antt =====
-- harness/src/triage.ts: the filter of the repos that the model names.
use muti_repo_workspace.Prelude.{
  String, Bool, false, not, ◌&&◌, List, [], ◌∷◌, any, str_eq, if◌then◌else◌, ◌≡◌, refl, arith,
  eq_iff, eq_refl, Bool-cases, inl, inr,
}

abbrev pub has : String → List String → Bool
has r repos = any (str_eq r) repos

-- The loop over `repos`, with the set of those it has seen.
unfoldable pub filter_unseen : List String → List String → List String → List String
filter_unseen available seen [] = []
filter_unseen available seen (r ∷ repos) =
    let kept = filter_unseen available (r ∷ seen) repos in
    let dropped = filter_unseen available seen repos in
    if has r available && not (has r seen) then r ∷ kept else dropped

unfoldable pub filter_to_available_repos : List String → List String → List String
filter_to_available_repos repos available = filter_unseen available [] repos

filter_unseen-has :
    (x : String) (available seen repos : List String)
    → has x (filter_unseen available seen repos)
      ≡ has x repos && (has x available && not (has x seen))
unfolding filter_unseen
filter_unseen-has x available seen [] = refl
filter_unseen-has x available seen (r ∷ repos) =
    let kept = filter_unseen-has x available (r ∷ seen) repos in
    let dropped = filter_unseen-has x available seen repos in ground (arith, eq_iff x r, eq_refl x)

abbrev pub IsDistinct : List String → Type 0
IsDistinct [] = Unit
IsDistinct (r ∷ repos) = (has r repos ≡ false) × IsDistinct repos

-- The second list with some elements left out.
pub data IsSublist : List String → List String → Type 0 where
  none_left : IsSublist [] []
  kept : {r : String} {xs ys : List String} → IsSublist xs ys → IsSublist (r ∷ xs) (r ∷ ys)
  left_out : {r : String} {xs ys : List String} → IsSublist xs ys → IsSublist xs (r ∷ ys)

filter_unseen-IsDistinct :
    (available seen repos : List String) → IsDistinct (filter_unseen available seen repos)
unfolding filter_unseen
filter_unseen-IsDistinct available seen [] = tt
filter_unseen-IsDistinct available seen (r ∷ repos) =
    elim (Bool-cases (has r available && not (has r seen))) [
      | inl takes ↦
          let once = filter_unseen-has r available (r ∷ seen) repos in
          rw takes (ground (arith, eq_refl r), filter_unseen-IsDistinct available (r ∷ seen) repos)
      | inr skips ↦ rw skips (filter_unseen-IsDistinct available seen repos)
    ]

filter_unseen-IsSublist :
    (available seen repos : List String) → IsSublist (filter_unseen available seen repos) repos
unfolding filter_unseen
filter_unseen-IsSublist available seen [] = IsSublist.none_left
filter_unseen-IsSublist available seen (r ∷ repos) =
    elim (Bool-cases (has r available && not (has r seen))) [
      | inl takes ↦ rw takes (IsSublist.kept (filter_unseen-IsSublist available (r ∷ seen) repos))
      | inr skips ↦ rw skips (IsSublist.left_out (filter_unseen-IsSublist available seen repos))
    ]

-- The filter keeps exactly the named repos that are available, each once, and in the order in
-- which they were named.
pub filter_to_available_repos-has :
    (repos available : List String)
    → ((x : String)
        → has x (filter_to_available_repos repos available) ≡ has x repos && has x available)
      × IsDistinct (filter_to_available_repos repos available)
      × IsSublist (filter_to_available_repos repos available) repos
unfolding filter_to_available_repos
filter_to_available_repos-has repos available = (
  (λ x. let found = filter_unseen-has x available [] repos in ground arith),
  filter_unseen-IsDistinct available [] repos,
  filter_unseen-IsSublist available [] repos,
)
