-- ===== src/Spine/Ledger/Provenance.antt =====
-- Where the verdicts come from that harness/src/spine/ledger.ts publishes by.
use muti_repo_workspace.Contracts.{Review}
use muti_repo_workspace.Prelude.{
  String, Option, some, none, List, ◌≡◌, refl, inl, inr, arith, Bool, ◌≢◌, eq_iff,
}
use muti_repo_workspace.Spine.Ledger.{
  SpineLedger, RepoLedgerEntry, LedgerRepoInit, fresh_entry, ok, get_repo, can_publish,
  record_worker_run, moved_to,
}
use muti_repo_workspace.Spine.Ledger.Entries.{get_repo-on_entry}
use muti_repo_workspace.Spine.Ledger.Gate.{can_publish_iff}
use muti_repo_workspace.Spine.Ledger.Trace.{
  LedgerOp, apply_all, AtHead, Since, IsGreenRun, IsApproval, ShowsGreen, ShowsApproval,
  apply-ShowsGreen, apply-ShowsApproval, shown-Since,
}

pub ShowsGreen-AtHead : (h : String) (o : Option RepoLedgerEntry) → ShowsGreen h o → AtHead h o
ShowsGreen-AtHead h none g = g
ShowsGreen-AtHead h (some e) g = g.0

pub ShowsApproval-AtHead :
    (h : String) (v : Review) (o : Option RepoLedgerEntry) → ShowsApproval h v o → AtHead h o
ShowsApproval-AtHead h v none g = g
ShowsApproval-AtHead h v (some e) g = g.0

pub fresh-ShowsGreen :
    {init : LedgerRepoInit} (h : String) (o : Option RepoLedgerEntry)
    → o ≡ some (fresh_entry init)
    → ¬ (ShowsGreen h o)
fresh-ShowsGreen h o fresh g = ground arith

pub fresh-ShowsApproval :
    {init : LedgerRepoInit} (h : String) (v : Review) (o : Option RepoLedgerEntry)
    → o ≡ some (fresh_entry init)
    → ¬ (ShowsApproval h v o)
fresh-ShowsApproval h v o fresh g = ground arith

-- If the gate passes for a repo after any sequence of recording calls on a ledger where its entry
-- was new, then the entry has a HEAD such that the sequence holds a passing test run at that HEAD
-- and an approving review of that HEAD, and the recorded HEAD did not change from either to the end.
pub can_publish-Since :
    (r : String) (l : SpineLedger) (init : LedgerRepoInit) (ops : List LedgerOp)
    → get_repo r l ≡ some (fresh_entry init)
    → can_publish r (apply_all ops l) ≡ ok
    → (h : String) × (v : Review) × AtHead h (get_repo r (apply_all ops l))
      × Since r h (IsGreenRun r h) l ops
      × Since r h (IsApproval r h v) l ops
can_publish-Since r l init ops fresh passed =
    let (e, found, c) = (can_publish_iff r (apply_all ops l)).0 passed in
    let h = e.head_sha in
    let green =
      shown-Since r h (ShowsGreen h) (IsGreenRun r h) (ShowsGreen-AtHead h) (apply-ShowsGreen r h) l
        ops (rw found (refl, c.green)) in
    let approved =
      shown-Since r h (ShowsApproval h c.review) (IsApproval r h c.review)
        (ShowsApproval-AtHead h c.review) (apply-ShowsApproval r h c.review) l ops
        (rw found (refl, c.reviewed)) in
    (
      h,
      c.review,
      rw found refl,
      elim green [
        | inl (g, _) ↦ absurd (fresh-ShowsGreen {init = init} h _ fresh g)
        | inr since ↦ since
      ],
      elim approved [
        | inl (g, _) ↦ absurd (fresh-ShowsApproval {init = init} h c.review _ fresh g)
        | inr since ↦ since
      ],
    )

-- A worker run that reports another HEAD than the recorded one closes the gate of its repo.
pub record_worker_run-can_publish :
    (r : String) (l : SpineLedger) (e : RepoLedgerEntry) (committed : Bool) (sha : String)
    → get_repo r l ≡ some e
    → e.head_sha ≢ sha
    → can_publish r (record_worker_run r committed sha l) ≢ ok
unfolding record_worker_run
record_worker_run-can_publish r l e committed sha found moved passed =
    let (e', found', c) = (can_publish_iff r (record_worker_run r committed sha l)).0 passed in
    let green = c.green in
    ground (arith, get_repo-on_entry r r (moved_to sha) l, eq_iff r r, eq_iff e.head_sha sha)

-- A run of the worker in one repo, whatever it reports, leaves the gate of every other repo as it was.
pub record_worker_run-other :
    (r k : String) (l : SpineLedger) (committed : Bool) (sha : String)
    → k ≢ r
    → get_repo r (record_worker_run k committed sha l) ≡ get_repo r l
unfolding record_worker_run
record_worker_run-other r k l committed sha other =
    ground (arith, get_repo-on_entry r k (moved_to sha) l, eq_iff k r)
