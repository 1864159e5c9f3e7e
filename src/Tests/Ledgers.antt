-- ===== src/Tests/Ledgers.antt =====
-- A ledger of harness/src/spine/ledger.ts with two repos, and runs of its gate.
use muti_repo_workspace.Contracts.{Review}
use muti_repo_workspace.Prelude.{
  String, true, none, some, ◌≡◌, refl, ◌≢◌, ◌↔◌, lookup, update, put, eq_iff, arith, if◌then◌else◌,
  str_eq,
}
use muti_repo_workspace.Spine.Ledger.{
  RepoLedgerEntry, new_ledger, get_repo, can_publish, fresh_entry, ok, record_worker_run,
}
use muti_repo_workspace.Spine.Ledger.Store.{
  Json, snapshot, load, persist, persist_target, typed, not_json, restored, ledger_schema_ok,
}
use muti_repo_workspace.Spine.Ledger.Gate.{IsCleared, can_publish_iff}
use muti_repo_workspace.Spine.Ledger.Trace.{apply_all, AtHead, Since, IsGreenRun, IsApproval}
use muti_repo_workspace.Spine.Ledger.Provenance.{can_publish-Since, record_worker_run-can_publish}
use muti_repo_workspace.Spine.Ledger.Restore.{
  HasDistinctKeys, new_ledger-HasDistinctKeys, load-persist,
}
use muti_repo_workspace.Tests.Samples.{
  an_env, budgets, two_repos, empty_ledger, to_green, green_ledger, api_init, a_review, a_plan,
}

green : can_publish "api" green_ledger ≡ ok
unfolding apply_all new_ledger can_publish get_repo lookup update put
green = refl

can_publish_iff_example :
    (can_publish "api" green_ledger ≡ ok)
    ↔ ((e : RepoLedgerEntry) × (get_repo "api" green_ledger ≡ some e) × IsCleared e)
can_publish_iff_example = can_publish_iff "api" green_ledger

new : get_repo "api" empty_ledger ≡ some (fresh_entry api_init)
unfolding new_ledger get_repo lookup put
new = refl

can_publish-Since_example :
    (h : String) × (v : Review) × AtHead h (get_repo "api" (apply_all to_green empty_ledger))
    × Since "api" h (IsGreenRun "api" h) empty_ledger to_green
    × Since "api" h (IsApproval "api" h v) empty_ledger to_green
can_publish-Since_example = can_publish-Since "api" empty_ledger api_init to_green new green

abbrev green_entry : RepoLedgerEntry
green_entry = record {
  repo_dir = "/t/api";
  base_sha = "aaa";
  head_sha = "bbb";
  plan = some a_plan;
  test_green = some (record { sha = "bbb" });
  review_approved = some (record { sha = "bbb"; review = a_review });
  published = none;
}

found : get_repo "api" green_ledger ≡ some green_entry
unfolding apply_all new_ledger get_repo lookup update put
found = refl

abbrev ddd : String
ddd = "ddd"

other : green_entry.head_sha ≢ ddd
other same = ground (arith, eq_iff green_entry.head_sha ddd)

record_worker_run-can_publish_example :
    can_publish "api" (record_worker_run "api" true ddd green_ledger) ≢ ok
record_worker_run-can_publish_example =
    record_worker_run-can_publish "api" green_ledger green_entry true ddd found other

new_ledger-HasDistinctKeys_example :
    HasDistinctKeys (new_ledger an_env "T-1" two_repos budgets none).repos
new_ledger-HasDistinctKeys_example = new_ledger-HasDistinctKeys an_env "T-1" two_repos budgets none

valid : ledger_schema_ok (snapshot "now" empty_ledger) ≡ true
unfolding ledger_schema_ok snapshot new_ledger put
valid = refl

-- A `JSON` that knows one snapshot.
abbrev a_json : Json
a_json = record {
  stringify = λ s. s.ticket;
  parse = λ text. if str_eq text "T-1\n" then typed (snapshot "now" empty_ledger) else not_json;
}

load-persist_example :
    load an_env a_json empty_ledger.ticket "/state" (some "T-1\n")
    ≡ restored (record empty_ledger { default_dir = some "/state" })
unfolding persist persist_target snapshot new_ledger
load-persist_example =
    load-persist an_env a_json "now" "/state" "T-1\n" (some "/state") empty_ledger
      (new_ledger-HasDistinctKeys an_env "T-1" two_repos budgets none) valid refl refl
