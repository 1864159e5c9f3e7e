-- ===== src/Spine/Ledger/Store.antt =====
-- The persistence half of harness/src/spine/ledger.ts: `snapshot`, `persist` and `load`, with JavaScript's
-- `JSON` as a parameter. What `JSON.parse` and the field types of the schema make of a text is the
-- data type `Stored`; the schema's value constraints are tests on the typed snapshot.
use Prim.Native.String
use muti_repo_workspace.Contracts.{plan_schema_ok}
use muti_repo_workspace.Prelude.{
  ℕ, String, Bool, true, ◌&&◌, Option, none, some, ◌==◌, str_eq, nonempty, all, leb, if◌then◌else◌,
  Dict, [], ◌∷◌, put,
}
use muti_repo_workspace.Spine.Ledger.{
  SpineLedger, RepoLedgerEntry, TestGreen, ReviewApproved, Published, new_ledger, or_default,
  SpineEnv,
}

abbrev pub spine_ledger_version : ℕ
spine_ledger_version = 1

pub record LedgerSnapshot : Type 0 where
  pub version : ℕ
  pub ticket : String
  pub actions_used : ℕ
  pub max_actions : ℕ
  pub worker_runs_used : ℕ
  pub max_worker_runs : ℕ
  pub repos : Dict RepoLedgerEntry
  pub instruction : Option String
  pub updated_at : String

pub data LedgerLoadErrorCode : Type 0 where
  missing invalid_json shape_mismatch ticket_mismatch : LedgerLoadErrorCode

pub data Loaded : Type 0 where
  restored : SpineLedger → Loaded
  load_error : LedgerLoadErrorCode → Loaded

-- What a text reads as: no JSON, JSON whose field types differ, or typed.
pub data Stored : Type 0 where
  not_json misshapen : Stored
  typed : LedgerSnapshot → Stored

-- `JSON.stringify` of a snapshot, with two spaces of indent, and `JSON.parse`.
pub record Json : Type 0 where
  pub stringify : LedgerSnapshot → String
  pub parse : String → Stored

abbrev pub some_ok {ℓ} : {A : Type ℓ} → (A → Bool) → Option A → Bool
some_ok p none = true
some_ok p (some a) = p a

unfoldable pub entry_schema_ok : RepoLedgerEntry → Bool
unfolding plan_schema_ok
entry_schema_ok e =
    nonempty e.repo_dir
    && nonempty e.base_sha
    && nonempty e.head_sha
    && some_ok plan_schema_ok e.plan
    && some_ok (λ (t : TestGreen). nonempty t.sha) e.test_green
    && some_ok (λ (r : ReviewApproved). nonempty r.sha) e.review_approved
    && some_ok (λ (p : Published). nonempty p.sha) e.published

-- `int().min(0)`, which refuses what is above `Number.MAX_SAFE_INTEGER`.
unfoldable pub is_safe_int : ℕ → Bool
is_safe_int n = leb n 9007199254740991

unfoldable pub ledger_schema_ok : LedgerSnapshot → Bool
unfolding entry_schema_ok is_safe_int
ledger_schema_ok s =
    s.version == spine_ledger_version
    && nonempty s.ticket
    && is_safe_int s.actions_used
    && is_safe_int s.max_actions
    && is_safe_int s.worker_runs_used
    && is_safe_int s.max_worker_runs
    && all (λ (e : String × RepoLedgerEntry). entry_schema_ok e.1) s.repos

unfoldable pub snapshot : String → SpineLedger → LedgerSnapshot
snapshot now l = record {
  version = spine_ledger_version;
  ticket = l.ticket;
  actions_used = l.actions_used;
  max_actions = l.max_actions;
  worker_runs_used = l.worker_runs_used;
  max_worker_runs = l.max_worker_runs;
  repos = l.repos;
  instruction = l.instruction_text;
  updated_at = now;
}

-- The loop that sets each persisted entry.
unfoldable pub restore_repos : Dict RepoLedgerEntry → Dict RepoLedgerEntry → Dict RepoLedgerEntry
restore_repos [] m = m
restore_repos ((name, entry) ∷ rest) m = restore_repos rest (put name entry m)

unfoldable pub restore : SpineEnv → LedgerSnapshot → String → SpineLedger
unfolding restore_repos new_ledger
restore env snap dir =
    let ledger : SpineLedger =
      new_ledger env snap.ticket []
        (record {
          max_actions = some snap.max_actions;
          max_worker_runs = some snap.max_worker_runs;
        })
        (some dir) in
    record ledger {
      actions_used = snap.actions_used;
      worker_runs_used = snap.worker_runs_used;
      instruction_text = snap.instruction;
      repos = restore_repos snap.repos ledger.repos;
    }

-- `load` on what the text of the file reads as.
unfoldable pub load_stored : SpineEnv → String → String → Stored → Loaded
unfolding ledger_schema_ok restore
load_stored env ticket dir not_json = load_error invalid_json
load_stored env ticket dir misshapen = load_error shape_mismatch
load_stored env ticket dir (typed snap) =
    if ledger_schema_ok snap
    then if str_eq snap.ticket ticket
      then restored (restore env snap dir)
      else load_error ticket_mismatch
    else load_error shape_mismatch

-- On the text of the file, `none` when it cannot be read.
unfoldable pub load : SpineEnv → Json → String → String → Option String → Loaded
unfolding load_stored
load env json ticket dir none = load_error missing
load env json ticket dir (some text) = load_stored env ticket dir (json.parse text)

-- The directory that `persist` writes to, `none` when it throws; the empty text counts as unset.
unfoldable pub persist_target : Option String → SpineLedger → Option String
persist_target dir l =
    let target = or_default dir (or_default l.default_dir "") in
    if nonempty target then some target else none

-- `persist`: the directory and the text of the file that the rename puts in place, `none` when it throws.
unfoldable pub persist :
    (LedgerSnapshot → String) → String → Option String → SpineLedger → Option (String × String)
unfolding persist_target snapshot
persist stringify now dir l = elim (persist_target dir l) [
  | none ↦ none
  | some target ↦ some (target, String.◌++◌ (stringify (snapshot now l)) "\n")
]
