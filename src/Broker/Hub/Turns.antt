-- ===== src/Broker/Hub/Turns.antt =====
-- Runs of `decide` of broker/src/gate.ts: the events of each event loop turn, and what they decide.
use muti_repo_workspace.Prelude.{ℕ, String, Bool, true, List, [], ◌∷◌}
use muti_repo_workspace.Broker.Hub.{
  Hub, ViewWire, by_tty, tty_error, DecideResult, waiting, rejected, decided, submit_approve,
  submit_decline, settle_first, decide_start, decide_finish,
}

pub data Event : Type 0 where
  approve_sent : String → String → Event
  decline_sent : String → Event
  tty_settles : Bool → Event
  tty_fails abort : Event

unfoldable pub handle : Event → Hub → Hub
unfolding submit_approve submit_decline
handle (approve_sent id sha) h = (submit_approve id sha h).0
handle (decline_sent id) h = (submit_decline id h).0
handle (tty_settles ok) h = record h { race = settle_first (by_tty ok) h.race }
handle tty_fails h = record h { race = settle_first tty_error h.race }
handle abort h = record h { race = record h.race { aborted = true } }

unfoldable pub turn : List Event → Hub → Hub
unfolding handle
turn [] h = h
turn (e ∷ es) h = turn es (handle e h)

-- `decide` waits through the turns until one settles the race.
unfoldable pub await_turns : String → ℕ → List (List Event) → Hub → Hub × DecideResult
unfolding turn decide_finish
await_turns id now [] h = (h, waiting)
await_turns id now (es ∷ turns) h =
    let (h', r) = decide_finish id now (turn es h) in
    let rest = await_turns id now turns h' in
    elim r [ waiting ↦ rest | rejected ↦ (h', rejected) | decided ok c ↦ (h', decided ok c) ]

unfoldable pub decide : String → ℕ → ViewWire → Bool → List (List Event) → Hub → Hub × DecideResult
unfolding await_turns decide_start
decide id now view signal_aborted turns h =
    await_turns id now turns (decide_start id now view signal_aborted h)
