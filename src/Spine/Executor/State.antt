-- ===== src/Spine/Executor/State.antt =====
-- harness/src/spine/executor.ts: the closure variables of `createExecutor` and the state of the outside
-- as one record; a promise that rejects is `rejected`.
use Prim.Native.String
use muti_repo_workspace.Contracts.{Plan}
use muti_repo_workspace.Prelude.{
  ℕ, ◌+◌, String, Bool, true, false, Option, none, some, [], ◌∷◌, Dict, lookup, put,
}
use muti_repo_workspace.Text.{codes, trim, is_y_or_yes}
use muti_repo_workspace.Spine.Ledger.{
  SpineLedger, RepoLedgerEntry, get_repo, repo_names, or_default,
}
use muti_repo_workspace.Spine.Actions.{
  ActionErrorCode, repo_unknown, EndedInfo, ErrorText, not_in_ticket, ActionResult, failure,
}

pub data ApprovalPolicy : Type 0 where
  in_chat broker_only : ApprovalPolicy

pub record ExecutorDeps : Type 0 where
  pub instruction : String
  pub approval_policy : Option ApprovalPolicy

pub record Executor (W : Type 0) : Type 0 where
  pub ledger : SpineLedger
  pub is_busy : Bool
  pub ended : Option EndedInfo
  pub worker_run_seq : Dict ℕ
  pub world : W

pub data Outcome : Type 0 where
  answered : ActionResult → Outcome
  rejected : String → Outcome

unfoldable pub minimal_plan : String → Plan
minimal_plan repo = record {
  summary =
      String.◌++◌ "(no plan recorded for '"
        (String.◌++◌ repo "' — reviewing directly against the ticket instruction.)");
  steps = "(no explicit plan on record)" ∷ [];
  risks = [];
  ready_to_implement = true;
}

unfoldable pub is_yes : String → Bool
unfolding trim is_y_or_yes
is_yes answer = is_y_or_yes (trim (codes answer))

abbrev pub is_in_chat : ApprovalPolicy → Bool
is_in_chat in_chat = true
is_in_chat broker_only = false

abbrev pub fails : ActionErrorCode → ErrorText → Outcome
fails code text = answered (failure code text)

module _ {W : Type 0} where
  abbrev pub with_ledger : (SpineLedger → SpineLedger) → W → Executor W → Executor W
  with_ledger f w s = record s { ledger = f s.ledger; world = w }

  unfoldable pub next_worker_run_seq : String → Executor W → Executor W × ℕ
  next_worker_run_seq repo s =
      let n = or_default (lookup repo s.worker_run_seq) 0 + 1 in
      (record s { worker_run_seq = put repo n s.worker_run_seq }, n)

  -- `requireRepo`, and the action on the entry that it finds.
  abbrev pub require_repo :
      String
      → (RepoLedgerEntry → Executor W → Outcome × Executor W)
      → Executor W
      → Outcome × Executor W
  require_repo name k s = elim (get_repo name s.ledger) [
    | none ↦ (fails repo_unknown (not_in_ticket name (repo_names s.ledger)), s)
    | some e ↦ k e s
  ]

unfoldable pub create_executor : {W : Type 0} → SpineLedger → W → Executor W
create_executor ledger world = record {
  ledger = ledger;
  is_busy = false;
  ended = none;
  worker_run_seq = [];
  world = world;
}
