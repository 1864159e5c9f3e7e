-- ===== src/Broker/Hub/Attempts.antt =====
-- The three attempts of `submitApprove` of broker/src/gate.ts.
use muti_repo_workspace.Prelude.{ℕ, String, true, false, List, [], ◌∷◌, ◌≡◌, eq_iff, str_eq, arith}
use muti_repo_workspace.Text.{codes, trim, codes_eq}
use muti_repo_workspace.Broker.Hub.{
  Hub, ViewWire, decided, socket, submit_approve, approve_pending, decide_start, decide_finish,
  conclude,
}
use muti_repo_workspace.Broker.Hub.Turns.{Event, approve_sent, handle, turn, await_turns, decide}

-- The text is not the short sha that is shown.
abbrev pub IsWrong : ViewWire → String → Type 0
IsWrong view sha = codes_eq (trim (codes sha)) (codes view.short_sha) ≡ false

abbrev pub guess : String → String → List Event
guess id sha = approve_sent id sha ∷ []

-- Three approvals of the pending id by wrong shas decline the request over the socket, whatever comes
-- later.
pub decide_wrong :
    (id : String) (now : ℕ) (view : ViewWire) (h : Hub) (s t u : String) (later : List (List Event))
    → IsWrong view s
    → IsWrong view t
    → IsWrong view u
    → (decide id now view false (guess id s ∷ guess id t ∷ guess id u ∷ later) h).1
      ≡ decided false socket
unfolding decide await_turns turn handle submit_approve approve_pending decide_start decide_finish
    conclude
decide_wrong id now view h s t u later wrong_s wrong_t wrong_u =
    let same : str_eq id id ≡ true = ground (arith, eq_iff id id) in ground (arith, same)
