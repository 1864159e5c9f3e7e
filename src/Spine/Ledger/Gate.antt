-- ===== src/Spine/Ledger/Gate.antt =====
-- The publish gate of harness/src/spine/ledger.ts against a plain description of what it asks for.
use muti_repo_workspace.Contracts.{Plan, Review}
use muti_repo_workspace.Prelude.{
  String, Option, none, some, ◌≡◌, refl, ◌↔◌, arith, eq_iff, Option-cases, inl, inr,
}
use muti_repo_workspace.Spine.Ledger.{
  SpineLedger, RepoLedgerEntry, ReviewApproved, TestGreen, ok, get_repo, can_publish, check_entry,
  check_plan, check_tests, check_review,
}

-- The entry has a plan, green tests at its HEAD and an approving review of its HEAD.
pub record IsCleared (e : RepoLedgerEntry) : Type 0 where
  pub plan : Plan
  pub planned : e.plan ≡ some plan
  pub green : e.test_green ≡ some (record { sha = e.head_sha })
  pub review : Review
  pub reviewed : e.review_approved ≡ some (record { sha = e.head_sha; review = review })

check_review-ok :
    (repo : String) (e : RepoLedgerEntry) (o : Option ReviewApproved)
    → check_review repo e o ≡ ok
    → (v : Review) × (o ≡ some (record { sha = e.head_sha; review = v }))
unfolding check_review
check_review-ok repo e none h = ground arith
check_review-ok repo e (some r) h = (r.review, ground (arith, eq_iff r.sha e.head_sha))

check_tests-ok :
    (repo : String) (e : RepoLedgerEntry) (o : Option TestGreen)
    → check_tests repo e o ≡ ok
    → (o ≡ some (record { sha = e.head_sha })) × (check_review repo e e.review_approved ≡ ok)
unfolding check_tests
check_tests-ok repo e none h = ground arith
check_tests-ok repo e (some t) h = ground (arith, eq_iff t.sha e.head_sha)

check_plan-ok :
    (repo : String) (e : RepoLedgerEntry) (o : Option Plan)
    → check_plan repo e o ≡ ok
    → (p : Plan) × (o ≡ some p) × (check_tests repo e e.test_green ≡ ok)
unfolding check_plan
check_plan-ok repo e none h = ground arith
check_plan-ok repo e (some p) h = (p, refl, h)

check_entry-IsCleared :
    (repo : String) (e : RepoLedgerEntry) → check_plan repo e e.plan ≡ ok → IsCleared e
check_entry-IsCleared repo e h =
    let (p, planned, h') = check_plan-ok repo e e.plan h in
    let (green, h'') = check_tests-ok repo e e.test_green h' in
    let (v, reviewed) = check_review-ok repo e e.review_approved h'' in
    record { plan = p; planned = planned; green = green; review = v; reviewed = reviewed }

IsCleared-check_entry :
    (repo : String) (e : RepoLedgerEntry) → IsCleared e → check_plan repo e e.plan ≡ ok
unfolding check_plan
IsCleared-check_entry repo e c = ground (arith, eq_iff e.head_sha e.head_sha)

-- `canPublish` passes exactly when the repo has an entry with a recorded plan, green tests at the
-- entry's HEAD and an approving review of the entry's HEAD.
pub can_publish_iff :
    (repo : String) (l : SpineLedger)
    → (can_publish repo l ≡ ok) ↔ ((e : RepoLedgerEntry) × (get_repo repo l ≡ some e) × IsCleared e)
unfolding can_publish get_repo check_entry
can_publish_iff repo l = (forth, back)
  where
    forth :
        can_publish repo l ≡ ok → (e : RepoLedgerEntry) × (get_repo repo l ≡ some e) × IsCleared e
    forth h = elim (Option-cases (get_repo repo l)) [
      | inl missing ↦ ground arith
      | inr (e, found) ↦ (e, found, check_entry-IsCleared repo e (ground arith))
    ]

    back :
        ((e : RepoLedgerEntry) × (get_repo repo l ≡ some e) × IsCleared e) → can_publish repo l ≡ ok
    back (e, found, c) = rw (found, can_publish) (IsCleared-check_entry repo e c)
