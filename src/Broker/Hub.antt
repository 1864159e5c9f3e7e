-- ===== src/Broker/Hub.antt =====
-- broker/src/gate.ts and the wire types of approval-types.ts: `ApprovalHub`, with the race that
-- `decide` waits on. An event loop turn is a list of events; after it the continuation of `decide`
-- runs if a promise of the race has settled. An external abort rejects its promise at once, the
-- other two settle through one more `then`, so an abort in the turn wins over them, and of those two
-- the first wins.
pub mod Turns
pub mod Decisions
pub mod Approval
pub mod Attempts
use muti_repo_workspace.Prelude.{
  ℕ, ◌-◌, String, Bool, true, false, Option, none, some, List, [], ◌∷◌, leb, str_eq, if◌then◌else◌,
}
use muti_repo_workspace.Text.{codes, trim, codes_eq}

-- The verdict of the advisory reviewer is shown and never read.
pub record ViewWire : Type 0 where
  pub repo : String
  pub ticket : Option String
  pub branch : String
  pub head_sha : String
  pub title : String
  pub body : String
  pub host : String
  pub org : String
  pub target_repo : String
  pub url : String
  pub commit_count : ℕ
  pub commit_list : String
  pub diff_stat : String
  pub diff : String
  pub reviewer_verdict : Option String
  pub test_caveat : Bool
  pub short_sha : String

pub data ApprovalChannel : Type 0 where
  tty socket : ApprovalChannel

pub data ApprovalDecision : Type 0 where
  approved declined canceled : ApprovalDecision

pub data PublishOutcome : Type 0 where
  succeeded : Option String → PublishOutcome
  failed : String → PublishOutcome

pub record OutcomeWire : Type 0 where
  pub id : String
  pub decision : ApprovalDecision
  pub channel : ApprovalChannel
  pub decided_at : ℕ
  pub publish : Option PublishOutcome

pub record PendingState : Type 0 where
  pub id : String
  pub started_at : ℕ
  pub attempts_left : ℕ
  pub view : ViewWire
  pub resolved : Bool

pub data PendingWire : Type 0 where
  shown : String → ℕ → ℕ → ViewWire → PendingWire
  unchanged : PendingWire

pub data Settled : Type 0 where
  by_tty by_socket : Bool → Settled
  tty_error : Settled

-- The promises of the race: whether the abort has rejected, and which other settled first.
pub record Race : Type 0 where
  pub aborted : Bool
  pub first : Option Settled

pub record Hub : Type 0 where
  pub pending : Option PendingState
  pub last : Option OutcomeWire
  pub race : Race

pub data ApproveResponse : Type 0 where
  result_approved result_exhausted approve_no_pending approve_stale : ApproveResponse
  sha_mismatch : ℕ → ApproveResponse

pub data DeclineResponse : Type 0 where
  result_declined decline_no_pending decline_stale : DeclineResponse

abbrev pub attempts_init : ℕ
attempts_init = 3

unfoldable pub status : Option String → Hub → Option PendingWire × Option OutcomeWire
status known h = elim h.pending [
  | none ↦ (none, h.last)
  | some p ↦ elim known [
    | none ↦ (some (shown p.id p.started_at p.attempts_left p.view), h.last)
    | some k ↦
        if str_eq k p.id
        then (some unchanged, h.last)
        else (some (shown p.id p.started_at p.attempts_left p.view), h.last)
  ]
]

-- A promise settles once; the race keeps the first.
abbrev pub settle_first : Settled → Race → Race
settle_first s r = record r { first = elim r.first [ none ↦ some s | some t ↦ some t ] }

-- The private `resolve`, on the pending entry that the caller has checked.
abbrev pub resolve : Bool → PendingState → Hub → Hub
resolve answer p h = if p.resolved then h else record h {
  pending = some (record p { resolved = true });
  race = settle_first (by_socket answer) h.race;
}

abbrev pub sha_matches : String → PendingState → Bool
sha_matches sha p = codes_eq (trim (codes sha)) (codes p.view.short_sha)

-- `submitApprove` on the pending entry.
unfoldable pub approve_pending : String → PendingState → Hub → Hub × ApproveResponse
approve_pending sha p h =
    if sha_matches sha p
    then (resolve true p h, result_approved)
    else let p' : PendingState = record p { attempts_left = p.attempts_left - 1 } in
      let h' : Hub = record h { pending = some p' } in
      if leb p'.attempts_left 0
      then (resolve false p' h', result_exhausted)
      else (h', sha_mismatch p'.attempts_left)

unfoldable pub submit_approve : String → String → Hub → Hub × ApproveResponse
unfolding approve_pending
submit_approve id sha h = elim h.pending [
  | none ↦ (h, approve_no_pending)
  | some p ↦
      if p.resolved
      then (h, approve_no_pending)
      else if str_eq p.id id
      then approve_pending sha p h
      else (h, approve_stale)
]

unfoldable pub submit_decline : String → Hub → Hub × DeclineResponse
submit_decline id h = elim h.pending [
  | none ↦ (h, decline_no_pending)
  | some p ↦
      if p.resolved
      then (h, decline_no_pending)
      else if str_eq p.id id
      then (resolve false p h, result_declined)
      else (h, decline_stale)
]

abbrev pub is_approved : ApprovalDecision → Bool
is_approved approved = true
is_approved _ = false

unfoldable pub report_outcome : PublishOutcome → Hub → Hub
report_outcome result h = elim h.last [
  | none ↦ h
  | some o ↦
      if is_approved o.decision
      then record h { last = some (record o { publish = some result }) }
      else h
]

-- The start of `decide`: the pending entry, and the race with a signal that may be aborted already.
unfoldable pub decide_start : String → ℕ → ViewWire → Bool → Hub → Hub
decide_start id now view signal_aborted h = record h {
  pending = some (record {
    id = id;
    started_at = now;
    attempts_left = attempts_init;
    view = view;
    resolved = false;
  });
  race = record { aborted = signal_aborted; first = none };
}

pub data DecideResult : Type 0 where
  waiting : DecideResult
  rejected : DecideResult
  decided : Bool → ApprovalChannel → DecideResult

abbrev pub decision_of : Bool → ApprovalDecision
decision_of true = approved
decision_of false = declined

abbrev pub outcome : String → ApprovalDecision → ApprovalChannel → ℕ → OutcomeWire
outcome id decision channel now = record {
  id = id;
  decision = decision;
  channel = channel;
  decided_at = now;
  publish = none;
}

abbrev pub concludes : String → Bool → ApprovalChannel → ℕ → Hub → Hub × DecideResult
concludes id ok channel now h = (
  record h { pending = none; last = some (outcome id (decision_of ok) channel now) },
  decided ok channel,
)

abbrev pub cancels : String → ℕ → Hub → Hub × DecideResult
cancels id now h =
    (record h { pending = none; last = some (outcome id canceled tty now) }, rejected)

-- The rest of `decide`, after a turn: what the race has settled to.
unfoldable pub conclude : String → ℕ → Race → Hub → Hub × DecideResult
conclude id now r h = if r.aborted then cancels id now h else elim r.first [
  | none ↦ (h, waiting)
  | some s ↦ elim s [
    | tty_error ↦ cancels id now h
    | by_tty ok ↦ concludes id ok tty now h
    | by_socket ok ↦ concludes id ok socket now h
  ]
]

unfoldable pub decide_finish : String → ℕ → Hub → Hub × DecideResult
unfolding conclude
decide_finish id now h = conclude id now h.race h
