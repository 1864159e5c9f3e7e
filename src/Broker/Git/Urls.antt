-- ===== src/Broker/Git/Urls.antt =====
-- broker/src/git.ts, `canonicalHttpsUrl`: the URL that is pushed to.
use mathlib.Core.List.{append_cancel_left, append_cancel_right}
use muti_repo_workspace.Prelude.{
  ℕ, Bool, true, false, not, ◌&&◌, ◌||◌, Option, none, some, List, [], ◌∷◌, ◌++◌, all, leb, ◌==◌,
  ◌≡◌, refl, arith, sym, ◌∙◌, if◌then◌else◌,
}
use muti_repo_workspace.Text.{codes, codes_eq, starts_with}

-- `Remote`, on texts as code units.
pub record RemoteParts : Type 0 where
  pub host : List ℕ
  pub org : List ℕ
  pub repo : List ℕ

abbrev pub is_host_unit : ℕ → Bool
is_host_unit c =
    (leb b'A' c && leb c b'Z')
    || (leb b'a' c && leb c b'z')
    || (leb b'0' c && leb c b'9')
    || c == b'.'
    || c == b'-'

abbrev pub is_name_unit : ℕ → Bool
is_name_unit c = is_host_unit c || c == b'_'

abbrev is_some_text : List ℕ → Bool
is_some_text [] = false
is_some_text (c ∷ s) = true

-- `includes("..")`
unfoldable pub has_dots : List ℕ → Bool
unfolding starts_with
has_dots [] = false
has_dots (c ∷ s) = starts_with (c ∷ s) (codes "..") || has_dots s

-- `HOST_RE`, without two dots in a row.
unfoldable pub is_host : List ℕ → Bool
unfolding has_dots
is_host s = is_some_text s && (all is_host_unit s && not (has_dots s))

-- `NAME_RE`, and neither a dot nor two dots in a row.
unfoldable pub is_name : List ℕ → Bool
unfolding has_dots codes_eq
is_name s =
    is_some_text s && (all is_name_unit s && (not (codes_eq s (codes ".")) && not (has_dots s)))

abbrev pub https_url : RemoteParts → List ℕ
https_url r = codes "https://" ++ (r.host ++ (b'/' ∷ (r.org ++ (b'/' ∷ (r.repo ++ codes ".git")))))

unfoldable pub canonical_https_url : RemoteParts → Option (List ℕ)
unfolding is_host is_name
canonical_https_url r =
    if not (is_host r.host)
    then none
    else if not (is_name r.org)
    then none
    else if not (is_name r.repo)
    then none
    else some (https_url r)

-- No slash stands in the text.
abbrev IsPart : List ℕ → Type 0
IsPart s = all (λ c. not (c == b'/')) s ≡ true

units-IsPart : (s : List ℕ) → all is_name_unit s ≡ true → IsPart s
units-IsPart [] h = refl
units-IsPart (c ∷ s) h = ground (arith, units-IsPart s)

host_units : (s : List ℕ) → all is_host_unit s ≡ true → all is_name_unit s ≡ true
host_units [] h = refl
host_units (c ∷ s) h = ground (arith, host_units s)

is_host-IsPart : (s : List ℕ) → is_host s ≡ true → IsPart s
unfolding is_host
is_host-IsPart s h = units-IsPart s (host_units s (ground arith))

is_name-IsPart : (s : List ℕ) → is_name s ≡ true → IsPart s
unfolding is_name
is_name-IsPart s h = units-IsPart s (ground arith)

cons_parts : (x y : ℕ) (a b : List ℕ) → x ∷ a ≡ y ∷ b → (x ≡ y) × (a ≡ b)
cons_parts x y a b e = (ground arith, ground arith)

-- Up to the first slash a text splits in one way.
split_once :
    (a b s t : List ℕ) → IsPart a → IsPart b → a ++ (b'/' ∷ s) ≡ b ++ (b'/' ∷ t) → (a ≡ b) × (s ≡ t)
split_once [] [] s t h k e = (refl, (cons_parts b'/' b'/' s t e).1)
split_once [] (y ∷ b) s t h k e =
    let same = (cons_parts b'/' y s (b ++ (b'/' ∷ t)) e).0 in ground arith
split_once (x ∷ a) [] s t h k e =
    let same = (cons_parts x b'/' (a ++ (b'/' ∷ s)) t e).0 in ground arith
split_once (x ∷ a) (y ∷ b) s t h k e =
    let (same, rest) = cons_parts x y (a ++ (b'/' ∷ s)) (b ++ (b'/' ∷ t)) e in
    let (ab, st) = split_once a b s t (ground arith) (ground arith) rest in (ground arith, st)

chain_cleared :
    {A : Type 0} (a b c : Bool) (u v : A)
    → (if not a then none else if not b then none else if not c then none else some u) ≡ some v
    → (a ≡ true) × (b ≡ true) × (c ≡ true) × (u ≡ v)
chain_cleared true true true u v e = (refl, refl, refl, ground arith)
chain_cleared true true false u v e = cc
chain_cleared true false c u v e = cc
chain_cleared false b c u v e = cc

valid_parts :
    (r : RemoteParts) (url : List ℕ)
    → canonical_https_url r ≡ some url
    → (is_host r.host ≡ true)
      × (is_name r.org ≡ true)
      × (is_name r.repo ≡ true)
      × (https_url r ≡ url)
unfolding canonical_https_url
valid_parts r url e =
    chain_cleared (is_host r.host) (is_name r.org) (is_name r.repo) (https_url r) url e

-- A push URL stands for one host, one organisation and one repo: two remotes whose canonical URLs
-- are the same are the same.
pub canonical_https_url-injective :
    (r q : RemoteParts) (url : List ℕ)
    → canonical_https_url r ≡ some url
    → canonical_https_url q ≡ some url
    → (r.host ≡ q.host) × (r.org ≡ q.org) × (r.repo ≡ q.repo)
canonical_https_url-injective r q url e f =
    let (rh, ro, rr, ru) = valid_parts r url e in
    let (qh, qo, qr, qu) = valid_parts q url f in
    let behind_scheme = append_cancel_left (codes "https://") _ _ (ru ∙ sym qu) in
    let (hosts, behind_host) =
      split_once r.host q.host _ _ (is_host-IsPart r.host rh) (is_host-IsPart q.host qh)
        behind_scheme in
    let (orgs, behind_org) =
      split_once r.org q.org _ _ (is_name-IsPart r.org ro) (is_name-IsPart q.org qo) behind_host in
    (hosts, orgs, append_cancel_right r.repo q.repo (codes ".git") behind_org)
