-- ===== src/Broker/Git/Complete.antt =====
-- broker/src/git.ts, `renderGroundTruth`: the calls of git behind what the human is shown.
use muti_repo_workspace.Prelude.{
  ℕ, Bool, true, false, not, Option, none, some, List, [], ◌∷◌, ◌++◌, ◌↔◌, ◌≡◌, refl, arith, ap,
  sym, ◌∙◌, subst, if◌then◌else◌,
}
use muti_repo_workspace.Text.{codes, trim}
use muti_repo_workspace.Text.Numbers.{parse_int}
use muti_repo_workspace.Broker.Git.Rendering.{
  GitCall, ls_remote, fetch, verify_base, log, count, diff_stat, diff, GitResult, RenderError,
  ls_remote_failed, tip_unparsed, fetch_failed, log_failed, count_failed, stat_failed, diff_failed,
  tip_found, fetch_tip, after_fetch, shown, with_patch, with_stat, with_count, with_log, with_heads,
  RenderedTruth, RenderTarget, Answer, gives, fails, Git, on_answer, ◌>>=◌, give, give_up, is_tip,
  first_token, is_empty, base_tree, range_of, checked, complete, based, fetched_base, remote_tip,
  render_range, render_ground_truth,
}

-- git succeeded, and its output was not cut off; of the call that reads the fetched ref the code only
-- asks that it succeeded with a line that is not empty.
abbrev pub IsComplete : GitCall → GitResult → Type 0
IsComplete verify_base r = (r.ok ≡ true) × (is_empty (trim r.stdout) ≡ false)
IsComplete _ r = (r.ok ≡ true) × (r.truncated ≡ false)

-- How the base is found: nothing where the branch is new, and else a fetch and the ref it wrote.
abbrev pub base_calls : RenderTarget → Option (List ℕ) → List ℕ → List (GitCall × List ℕ)
base_calls p none fetched = []
base_calls p (some tip) fetched = (fetch p.url p.branch, fetched) ∷ (verify_base, tip) ∷ []

abbrev pub range_calls : RenderTarget → RenderedTruth → List ℕ → List (GitCall × List ℕ)
range_calls p t number =
    (log (range_of t.remote_tip p.sha), t.commit_list)
    ∷ (count (range_of t.remote_tip p.sha), number)
    ∷ (diff_stat (base_tree t.remote_tip) p.sha, t.diff_stat)
    ∷ (diff (base_tree t.remote_tip) p.sha, t.diff)
    ∷ []

module _ {W : Type 0} (run : GitCall → W → GitResult × W) where
  -- From one state of the outside to another exactly these calls were made, each complete and with
  -- this output, trimmed.
  abbrev pub Asks : List (GitCall × List ℕ) → W → W → Type 0
  Asks [] w w' = w ≡ w'
  Asks ((call, out) ∷ later) w w' =
      (r : GitResult) × (w1 : W) × (run call w ≡ (r, w1))
      × IsComplete call r
      × (trim r.stdout ≡ out)
      × Asks later w1 w'

  Asks-append :
      (xs ys : List (GitCall × List ℕ)) (w w1 w' : W)
      → Asks xs w w1
      → Asks ys w1 w'
      → Asks (xs ++ ys) w w'
  Asks-append [] ys w w1 w' h k = subst (λ v. Asks ys v w') (sym h) k
  Asks-append (x ∷ xs) ys w w1 w' (r, v, ran, whole, out, h) k =
      (r, v, ran, whole, out, Asks-append xs ys v w1 w' h k)

  bind-gives :
      {A B : Type 0} (m : Git W A) (f : A → Git W B) (b : B) (w w' : W)
      → (m >>= f) w ≡ (gives b, w')
      → (a : A) × (w1 : W) × (m w ≡ (gives a, w1)) × (f a w1 ≡ (gives b, w'))
  unfolding ◌>>=◌
  bind-gives {A} {B} m f b w w' e = go (m w) refl e
    where
      go :
          (r : Answer A × W)
          → m w ≡ r
          → on_answer f r ≡ (gives b, w')
          → (a : A) × (w1 : W) × (m w ≡ (gives a, w1)) × (f a w1 ≡ (gives b, w'))
      go (gives a, w1) same out = (a, w1, same, out)
      go (fails x, w1) same out = cc

  complete-gives :
      (call : GitCall) (x : RenderError) (out : List ℕ) (w w' : W)
      → complete run call x w ≡ (gives out, w')
      → (r : GitResult) × (run call w ≡ (r, w'))
        × (r.ok ≡ true)
        × (r.truncated ≡ false)
        × (trim r.stdout ≡ out)
  unfolding complete
  complete-gives call x out w w' e = go (run call w) refl e
    where
      go :
          (a : GitResult × W)
          → run call w ≡ a
          → checked run x a ≡ (gives out, w')
          → (r : GitResult) × (run call w ≡ (r, w'))
            × (r.ok ≡ true)
            × (r.truncated ≡ false)
            × (trim r.stdout ≡ out)
      go (r, w1) same e =
          let here : w1 ≡ w' = ground arith in
          (r, same ∙ ap (λ v. (r, v)) here, ground arith, ground arith, ground arith)

  fetched_base-gives :
      (out : List ℕ) (w w' : W)
      → fetched_base run w ≡ (gives out, w')
      → (r : GitResult) × (run verify_base w ≡ (r, w'))
        × IsComplete verify_base r
        × (trim r.stdout ≡ out)
  unfolding fetched_base
  fetched_base-gives out w w' e = go (run verify_base w) refl e
    where
      go :
          (a : GitResult × W)
          → run verify_base w ≡ a
          → based run a ≡ (gives out, w')
          → (r : GitResult) × (run verify_base w ≡ (r, w'))
            × IsComplete verify_base r
            × (trim r.stdout ≡ out)
      go (r, w1) same e =
          let here : w1 ≡ w' = ground arith in
          (r, same ∙ ap (λ v. (r, v)) here, (ground arith, ground arith), ground arith)

  give-gives : {A : Type 0} (a b : A) (w w' : W) → give a w ≡ (gives b, w') → (a ≡ b) × (w ≡ w')
  unfolding give
  give-gives a b w w' e = (ground arith, ground arith)

  abbrev RangeShown : RenderTarget → Option (List ℕ) → RenderedTruth → W → W → Type 0
  RangeShown p tip t w w' =
      (number : List ℕ) × Asks (range_calls p t number) w w'
      × (t.remote_tip ≡ tip)
      × (t.unpushed ≡ parse_int (if is_empty number then codes "0" else number))

  render_range-gives :
      (p : RenderTarget) (tip : Option (List ℕ)) (t : RenderedTruth) (w w' : W)
      → render_range run p tip w ≡ (gives t, w')
      → RangeShown p tip t w w'
  unfolding render_range
  render_range-gives p tip t w w' e =
      let (commits, w1, e1, k1) =
        bind-gives (complete run (log (range_of tip p.sha)) log_failed) (with_log run p tip) t w w'
          e in
      let (number, w2, e2, k2) =
        bind-gives (complete run (count (range_of tip p.sha)) count_failed)
          (with_count run p tip commits) t w1 w' k1 in
      let (stat, w3, e3, k3) =
        bind-gives (complete run (diff_stat (base_tree tip) p.sha) stat_failed)
          (with_stat run p tip commits number) t w2 w' k2 in
      let (patch, w4, e4, k4) =
        bind-gives (complete run (diff (base_tree tip) p.sha) diff_failed)
          (with_patch run tip commits number stat) t w3 w' k3 in
      let (same, last) = give-gives (shown run tip commits number stat patch) t w4 w' k4 in
      let (r1, a1, ok1, tr1, o1) =
        complete-gives (log (range_of tip p.sha)) log_failed commits w w1 e1 in
      let (r2, a2, ok2, tr2, o2) =
        complete-gives (count (range_of tip p.sha)) count_failed number w1 w2 e2 in
      let (r3, a3, ok3, tr3, o3) =
        complete-gives (diff_stat (base_tree tip) p.sha) stat_failed stat w2 w3 e3 in
      let (r4, a4, ok4, tr4, o4) =
        complete-gives (diff (base_tree tip) p.sha) diff_failed patch w3 w4 e4 in
      subst (λ t. RangeShown p tip t w w') same
        (
          number,
          (
            r1,
            w1,
            a1,
            (ok1, tr1),
            o1,
            (
              r2,
              w2,
              a2,
              (ok2, tr2),
              o2,
              (r3, w3, a3, (ok3, tr3), o3, (r4, w4, a4, (ok4, tr4), o4, last)),
            ),
          ),
          refl,
          refl,
        )

  parsed :
      {A : Type 0} (b : Bool) (m : Git W A) (a : A) (w w' : W)
      → (if not b then give_up tip_unparsed else m) w ≡ (gives a, w')
      → m w ≡ (gives a, w')
  unfolding give_up
  parsed true m a w w' e = e
  parsed false m a w w' e = cc

  not_new :
      (tip : List ℕ) (c : ℕ) (line : List ℕ)
      → (◌≡◌ {A = Option (List ℕ)} (some tip) none) ↔ (c ∷ line ≡ [])
  not_new tip c line = ((λ h. cc), (λ h. cc))

  remote_tip-gives :
      (p : RenderTarget) (heads : List ℕ) (tip : Option (List ℕ)) (w w' : W)
      → remote_tip run p heads w ≡ (gives tip, w')
      → (fetched : List ℕ) × Asks (base_calls p tip fetched) w w' × ((tip ≡ none) ↔ (heads ≡ []))
  unfolding remote_tip
  remote_tip-gives p [] tip w w' e =
      let (same, here) = give-gives none tip w w' e in
      subst
        (λ tip.
          (fetched : List ℕ) × Asks (base_calls p tip fetched) w w'
          × ((tip ≡ none) ↔ (◌≡◌ {A = List ℕ} [] [])))
        same ([], here, ((λ h. refl), (λ h. refl)))
  remote_tip-gives p (c ∷ line) tip w w' e =
      let (fetched, w1, e1, k1) =
        bind-gives (complete run (fetch p.url p.branch) fetch_failed) (after_fetch run) tip w w'
          (parsed (is_tip (first_token (c ∷ line))) (fetch_tip run p) tip w w' e) in
      let (found, w2, e2, k2) = bind-gives (fetched_base run) (tip_found run) tip w1 w' k1 in
      let (same, last) = give-gives (some found) tip w2 w' k2 in
      let (r1, a1, ok1, tr1, o1) =
        complete-gives (fetch p.url p.branch) fetch_failed fetched w w1 e1 in
      let (r2, a2, ok2, o2) = fetched_base-gives found w1 w2 e2 in
      subst
        (λ tip.
          (fetched : List ℕ) × Asks (base_calls p tip fetched) w w'
          × ((tip ≡ none) ↔ (c ∷ line ≡ [])))
        same
        (fetched, (r1, w1, a1, (ok1, tr1), o1, (r2, w2, a2, ok2, o2, last)), not_new found c line)

  -- What the human is shown comes from these calls and no others, in this order, each of them
  -- successful, none of those but the reading of the fetched ref cut off, and that ref not empty: the heads of the branch at the push URL; where there are any, the
  -- fetch of the branch and the ref that it wrote; and the log, the count, the statistics and the
  -- diff from that ref, or from the empty tree where there was no head, up to the sha.
  pub render_ground_truth-Asks :
      (p : RenderTarget) (t : RenderedTruth) (w w' : W)
      → render_ground_truth run p w ≡ (gives t, w')
      → (heads : List ℕ) × (fetched : List ℕ) × (number : List ℕ) × Asks
          ((ls_remote p.url p.branch, heads)
            ∷ (base_calls p t.remote_tip fetched ++ range_calls p t number))
          w
          w'
        × ((t.remote_tip ≡ none) ↔ (heads ≡ []))
        × (t.unpushed ≡ parse_int (if is_empty number then codes "0" else number))
  unfolding render_ground_truth
  render_ground_truth-Asks p t w w' e =
      let (heads, w1, e1, k1) =
        bind-gives (complete run (ls_remote p.url p.branch) ls_remote_failed) (with_heads run p) t w
          w' e in
      let (tip, w2, e2, k2) = bind-gives (remote_tip run p heads) (render_range run p) t w1 w' k1 in
      let (r1, a1, ok1, tr1, o1) =
        complete-gives (ls_remote p.url p.branch) ls_remote_failed heads w w1 e1 in
      let (fetched, based, new) = remote_tip-gives p heads tip w1 w2 e2 in
      let (number, ranged, same, counted) = render_range-gives p tip t w2 w' k2 in
      let based' = subst (λ tip. Asks (base_calls p tip fetched) w1 w2) (sym same) based in
      let new' = subst (λ tip. (tip ≡ none) ↔ (heads ≡ [])) (sym same) new in
      (
        heads,
        fetched,
        number,
        (
          r1,
          w1,
          a1,
          (ok1, tr1),
          o1,
          Asks-append (base_calls p t.remote_tip fetched) (range_calls p t number) w1 w2 w' based'
              ranged,
        ),
        new',
        counted,
      )
