-- ===== src/Broker/Git/Rendering.antt =====
-- broker/src/git.ts, `renderGroundTruth`: what the human is shown of the commits. A call of git is a
-- case of `GitCall`, and what git answers is a parameter, over a state `W` of the outside.
use muti_repo_workspace.Prelude.{
  ℕ, Bool, true, false, not, ◌&&◌, ◌||◌, Option, none, some, List, [], ◌∷◌, ◌++◌, all, leb, length,
  if◌then◌else◌,
}
use muti_repo_workspace.Text.{codes, is_space, trim}
use muti_repo_workspace.Text.Numbers.{ℤ, parse_int}

-- The calls, with the url and the branch, or with their range, or with the base and the sha.
pub data GitCall : Type 0 where
  ls_remote fetch : List ℕ → List ℕ → GitCall
  verify_base : GitCall
  log count : List ℕ → GitCall
  diff_stat diff : List ℕ → List ℕ → GitCall

pub record GitResult : Type 0 where
  pub ok : Bool
  pub stdout : List ℕ
  pub truncated : Bool

-- The texts of the errors, without what git printed.
pub data RenderError : Type 0 where
  ls_remote_failed tip_unparsed fetch_failed base_missing : RenderError
  log_failed count_failed stat_failed diff_failed : RenderError

pub record RenderedTruth : Type 0 where
  pub remote_tip : Option (List ℕ)
  pub unpushed : Option ℤ
  pub commit_list : List ℕ
  pub diff_stat : List ℕ
  pub diff : List ℕ

pub record RenderTarget : Type 0 where
  pub sha : List ℕ
  pub url : List ℕ
  pub branch : List ℕ

pub data Answer (A : Type 0) : Type 0 where
  gives : A → Answer A
  fails : RenderError → Answer A

abbrev pub Git : Type 0 → Type 0 → Type 0
Git W A = W → Answer A × W

module _ {W A B : Type 0} where
  abbrev pub on_answer : (A → Git W B) → Answer A × W → Answer B × W
  on_answer f (gives a, w) = f a w
  on_answer f (fails e, w) = (fails e, w)

  unfoldable pub ◌>>=◌ : Git W A → (A → Git W B) → Git W B
  (m >>= f) w = on_answer f (m w)

  infixl 1 ◌>>=◌

module _ {W A : Type 0} where
  unfoldable pub give : A → Git W A
  give a w = (gives a, w)

  unfoldable pub give_up : RenderError → Git W A
  give_up e w = (fails e, w)

abbrev pub empty_tree : List ℕ
empty_tree = codes "4b825dc642cb6eb9a060e54bf8d69288fbee4904"

-- `line.split(/\s+/)[0]` of a trimmed text
unfoldable pub first_token : List ℕ → List ℕ
unfolding is_space
first_token [] = []
first_token (c ∷ s) = let rest = first_token s in if is_space c then [] else c ∷ rest

abbrev is_hex : ℕ → Bool
is_hex c = (leb b'0' c && leb c b'9') || (leb b'a' c && leb c b'f') || (leb b'A' c && leb c b'F')

-- `/^[0-9a-f]{7,64}$/i`
unfoldable pub is_tip : List ℕ → Bool
is_tip s = all is_hex s && (leb 7 (length s) && leb (length s) 64)

abbrev pub is_empty : List ℕ → Bool
is_empty [] = true
is_empty (c ∷ s) = false

abbrev pub base_tree : Option (List ℕ) → List ℕ
base_tree none = empty_tree
base_tree (some tip) = tip

abbrev pub range_of : Option (List ℕ) → List ℕ → List ℕ
range_of none sha = sha
range_of (some tip) sha = tip ++ (codes ".." ++ sha)

module _ {W : Type 0} (run : GitCall → W → GitResult × W) where
  abbrev pub checked : RenderError → GitResult × W → Answer (List ℕ) × W
  checked e (r, w) = if not r.ok || r.truncated then (fails e, w) else (gives (trim r.stdout), w)

  -- A call that must be complete; its output is trimmed.
  unfoldable pub complete : GitCall → RenderError → Git W (List ℕ)
  unfolding trim
  complete call e w = checked e (run call w)

  abbrev pub based : GitResult × W → Answer (List ℕ) × W
  based (r, w) =
      if not r.ok || is_empty (trim r.stdout)
      then (fails base_missing, w)
      else (gives (trim r.stdout), w)

  -- The ref that was fetched.
  unfoldable pub fetched_base : Git W (List ℕ)
  unfolding trim
  fetched_base w = based (run verify_base w)

  abbrev pub tip_found : List ℕ → Git W (Option (List ℕ))
  tip_found tip = give (some tip)

  abbrev pub after_fetch : List ℕ → Git W (Option (List ℕ))
  after_fetch _ = fetched_base >>= tip_found

  abbrev pub fetch_tip : RenderTarget → Git W (Option (List ℕ))
  fetch_tip p = complete (fetch p.url p.branch) fetch_failed >>= after_fetch

  -- The tip of the remote branch, where `ls-remote` shows one.
  unfoldable pub remote_tip : RenderTarget → List ℕ → Git W (Option (List ℕ))
  unfolding ◌>>=◌ complete fetched_base give give_up first_token is_tip
  remote_tip p [] = give none
  remote_tip p (c ∷ line) =
      if not (is_tip (first_token (c ∷ line))) then give_up tip_unparsed else fetch_tip p

  abbrev pub shown : Option (List ℕ) → List ℕ → List ℕ → List ℕ → List ℕ → RenderedTruth
  shown tip commits number stat patch = record {
    remote_tip = tip;
    unpushed = parse_int (if is_empty number then codes "0" else number);
    commit_list = commits;
    diff_stat = stat;
    diff = patch;
  }

  -- The calls behind the base, the last one first.
  abbrev pub with_patch : Option (List ℕ) → List ℕ → List ℕ → List ℕ → List ℕ → Git W RenderedTruth
  with_patch tip commits number stat patch = give (shown tip commits number stat patch)

  abbrev pub with_stat :
      RenderTarget → Option (List ℕ) → List ℕ → List ℕ → List ℕ → Git W RenderedTruth
  with_stat p tip commits number stat =
      complete (diff (base_tree tip) p.sha) diff_failed >>= with_patch tip commits number stat

  abbrev pub with_count : RenderTarget → Option (List ℕ) → List ℕ → List ℕ → Git W RenderedTruth
  with_count p tip commits number =
      complete (diff_stat (base_tree tip) p.sha) stat_failed >>= with_stat p tip commits number

  abbrev pub with_log : RenderTarget → Option (List ℕ) → List ℕ → Git W RenderedTruth
  with_log p tip commits =
      complete (count (range_of tip p.sha)) count_failed >>= with_count p tip commits

  unfoldable pub render_range : RenderTarget → Option (List ℕ) → Git W RenderedTruth
  unfolding ◌>>=◌ complete give parse_int
  render_range p tip = complete (log (range_of tip p.sha)) log_failed >>= with_log p tip

  abbrev pub with_heads : RenderTarget → List ℕ → Git W RenderedTruth
  with_heads p heads = remote_tip p heads >>= render_range p

  unfoldable pub render_ground_truth : RenderTarget → Git W RenderedTruth
  unfolding ◌>>=◌ complete remote_tip render_range
  render_ground_truth p = complete (ls_remote p.url p.branch) ls_remote_failed >>= with_heads p
