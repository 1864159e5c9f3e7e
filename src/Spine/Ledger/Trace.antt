-- ===== src/Spine/Ledger/Trace.antt =====
-- Histories of the ledger of harness/src/spine/ledger.ts: what has happened when the gate passes.
use mathlib.Core.Option
use muti_repo_workspace.Contracts.{Plan, Review, is_approve}
use muti_repo_workspace.Prelude.{
  String, Bool, true, Option, none, some, List, [], ◌∷◌, ◌≡◌, ◌⊎◌, inl, inr, arith, eq_iff,
}
use muti_repo_workspace.Spine.Ledger.{
  SpineLedger, RepoLedgerEntry, get_repo, record_worker_run, record_tests, record_review,
  record_plan, record_published, moved_to, tested_at, reviewed_at, planned, published_as,
}
use muti_repo_workspace.Spine.Ledger.Entries.{get_repo-on_entry}

-- The calls that change an entry.
pub data LedgerOp : Type 0 where
  worker_ran : String → Bool → String → LedgerOp
  tests_ran : String → Bool → String → LedgerOp
  reviewed : String → Review → String → LedgerOp
  plan_made : String → Plan → LedgerOp
  was_published : String → String → Option String → LedgerOp

unfoldable pub apply : LedgerOp → SpineLedger → SpineLedger
unfolding record_worker_run record_tests record_review record_plan record_published
apply (worker_ran repo committed head_sha) l = record_worker_run repo committed head_sha l
apply (tests_ran repo pass at_sha) l = record_tests repo pass at_sha l
apply (reviewed repo review at_sha) l = record_review repo review at_sha l
apply (plan_made repo plan) l = record_plan repo plan l
apply (was_published repo sha pr_url) l = record_published repo sha pr_url l

unfoldable pub apply_all : List LedgerOp → SpineLedger → SpineLedger
unfolding apply
apply_all [] l = l
apply_all (o ∷ os) l = apply_all os (apply o l)

-- An entry's HEAD is `h`.
abbrev pub AtHead : String → Option RepoLedgerEntry → Type 0
AtHead h none = ⊥
AtHead h (some e) = e.head_sha ≡ h

-- The recorded HEAD of `r` is `h` before and after each of the calls.
abbrev pub HeadStays : String → String → SpineLedger → List LedgerOp → Type 0
HeadStays r h l [] = AtHead h (get_repo r l)
HeadStays r h l (o ∷ os) = AtHead h (get_repo r l) × HeadStays r h (apply o l) os

-- Among the calls is one that `P` holds of, and from it on the recorded HEAD of `r` is `h`.
abbrev pub Since : String → String → (LedgerOp → Type 0) → SpineLedger → List LedgerOp → Type 0
Since r h P l [] = ⊥
Since r h P l (o ∷ os) = (P o × HeadStays r h (apply o l) os) ⊎ Since r h P (apply o l) os

abbrev pub IsGreenRun : String → String → LedgerOp → Type 0
IsGreenRun r h (tests_ran repo pass at_sha) = (repo ≡ r) × (pass ≡ true) × (at_sha ≡ h)
IsGreenRun r h _ = ⊥

abbrev pub IsApproval : String → String → Review → LedgerOp → Type 0
IsApproval r h v (reviewed repo review at_sha) =
    (repo ≡ r) × (review ≡ v) × (is_approve v.verdict ≡ true) × (at_sha ≡ h)
IsApproval r h v _ = ⊥

-- Green tests at `h` are recorded of the entry, whose HEAD is `h`.
abbrev pub ShowsGreen : String → Option RepoLedgerEntry → Type 0
ShowsGreen h none = ⊥
ShowsGreen h (some e) = (e.head_sha ≡ h) × (e.test_green ≡ some (record { sha = h }))

-- A run that moves HEAD leaves no green tests.
moved_to-ShowsGreen :
    (h s : String) (o : Option RepoLedgerEntry)
    → ShowsGreen h (Option.map (moved_to s) o)
    → ShowsGreen h o
moved_to-ShowsGreen h s none g = g
moved_to-ShowsGreen h s (some e) g = ground (arith, eq_iff e.head_sha s)

pub apply-ShowsGreen :
    (r h : String) (o : LedgerOp) (l : SpineLedger)
    → ShowsGreen h (get_repo r (apply o l))
    → ShowsGreen h (get_repo r l) ⊎ IsGreenRun r h o
unfolding apply
apply-ShowsGreen r h (worker_ran k c s) l g = ground (
  arith,
  get_repo-on_entry r k (moved_to s) l,
  eq_iff k r,
  moved_to-ShowsGreen h s (get_repo r l),
)
apply-ShowsGreen r h (tests_ran k p s) l g =
    ground (arith, get_repo-on_entry r k (tested_at p s) l, eq_iff k r)
apply-ShowsGreen r h (reviewed k v s) l g =
    ground (arith, get_repo-on_entry r k (reviewed_at v s) l, eq_iff k r)
apply-ShowsGreen r h (plan_made k p) l g =
    ground (arith, get_repo-on_entry r k (planned p) l, eq_iff k r)
apply-ShowsGreen r h (was_published k s u) l g =
    ground (arith, get_repo-on_entry r k (published_as s u) l, eq_iff k r)

-- The approval `v` of `h` is recorded of the entry, whose HEAD is `h`.
abbrev pub ShowsApproval : String → Review → Option RepoLedgerEntry → Type 0
ShowsApproval h v none = ⊥
ShowsApproval h v (some e) =
    (e.head_sha ≡ h) × (e.review_approved ≡ some (record { sha = h; review = v }))

moved_to-ShowsApproval :
    (h s : String) (v : Review) (o : Option RepoLedgerEntry)
    → ShowsApproval h v (Option.map (moved_to s) o)
    → ShowsApproval h v o
moved_to-ShowsApproval h s v none g = g
moved_to-ShowsApproval h s v (some e) g = ground (arith, eq_iff e.head_sha s)

reviewed_at-ShowsApproval :
    (h s : String) (w v : Review) (o : Option RepoLedgerEntry)
    → ShowsApproval h v (Option.map (reviewed_at w s) o)
    → (w ≡ v) × (is_approve v.verdict ≡ true) × (s ≡ h)
reviewed_at-ShowsApproval h s w v none g = absurd g
reviewed_at-ShowsApproval h s w v (some e) g = ground arith

pub apply-ShowsApproval :
    (r h : String) (v : Review) (o : LedgerOp) (l : SpineLedger)
    → ShowsApproval h v (get_repo r (apply o l))
    → ShowsApproval h v (get_repo r l) ⊎ IsApproval r h v o
unfolding apply
apply-ShowsApproval r h v (worker_ran k c s) l g = ground (
  arith,
  get_repo-on_entry r k (moved_to s) l,
  eq_iff k r,
  moved_to-ShowsApproval h s v (get_repo r l),
)
apply-ShowsApproval r h v (tests_ran k p s) l g =
    ground (arith, get_repo-on_entry r k (tested_at p s) l, eq_iff k r)
apply-ShowsApproval r h v (reviewed k w s) l g = ground (
  arith,
  get_repo-on_entry r k (reviewed_at w s) l,
  eq_iff k r,
  reviewed_at-ShowsApproval h s w v (get_repo r l),
)
apply-ShowsApproval r h v (plan_made k p) l g =
    ground (arith, get_repo-on_entry r k (planned p) l, eq_iff k r)
apply-ShowsApproval r h v (was_published k s u) l g =
    ground (arith, get_repo-on_entry r k (published_as s u) l, eq_iff k r)

module _ (r h : String) (Shows : Option RepoLedgerEntry → Type 0) (P : LedgerOp → Type 0)
    (shown_at : (o : Option RepoLedgerEntry) → Shows o → AtHead h o)
    (step : (o : LedgerOp) (l : SpineLedger)
      → Shows (get_repo r (apply o l))
      → Shows (get_repo r l) ⊎ P o) where
  -- What the entry shows at the end was shown all along, or comes from a call since which HEAD stays.
  pub shown-Since :
      (l : SpineLedger) (os : List LedgerOp)
      → Shows (get_repo r (apply_all os l))
      → (Shows (get_repo r l) × HeadStays r h l os) ⊎ Since r h P l os
  unfolding apply_all
  shown-Since l [] g = inl (g, shown_at (get_repo r l) g)
  shown-Since l (o ∷ os) g = elim (shown-Since (apply o l) os g) [
    | inr later ↦ inr (inr later)
    | inl (shown, stays) ↦ elim (step o l shown) [
      | inl before ↦ inl (before, (shown_at (get_repo r l) before, stays))
      | inr now ↦ inr (inl (now, stays))
    ]
  ]
