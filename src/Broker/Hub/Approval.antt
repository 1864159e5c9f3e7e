-- ===== src/Broker/Hub/Approval.antt =====
-- What `decide` of broker/src/gate.ts answers over a whole run, and what it records.
use muti_repo_workspace.Prelude.{
  ℕ, String, Bool, true, false, ◌||◌, Option, none, some, List, [], ◌∷◌, ◌≡◌, refl, sym, ap, subst,
  ◌∙◌, ◌⊎◌, inl, inr, any, arith,
}
use muti_repo_workspace.Broker.Hub.{
  Hub, PendingState, ViewWire, Race, Settled, by_tty, by_socket, tty_error, DecideResult, waiting,
  rejected, decided, ApprovalChannel, tty, socket, canceled, decision_of, outcome, decide_start,
  decide_finish, conclude, attempts_init,
}
use muti_repo_workspace.Broker.Hub.Turns.{Event, handle, turn, await_turns, decide}
use muti_repo_workspace.Broker.Hub.Decisions.{Awaits, Causes, is_abort, handle-Advances}

-- Some event of the turn can settle the race so.
unfoldable pub CausedIn : String → ViewWire → List Event → Settled → Type 0
CausedIn id view [] s = ⊥
CausedIn id view (e ∷ es) s = Causes id view e s ⊎ CausedIn id view es s

abbrev pub how : Bool → ApprovalChannel → Settled
how ok tty = by_tty ok
how ok socket = by_socket ok

-- Up to the turn that decides no event aborts, and in that turn an event asks for the decision.
unfoldable pub Decided : String → ViewWire → List (List Event) → Bool → ApprovalChannel → Type 0
Decided id view [] ok c = ⊥
Decided id view (es ∷ turns) ok c =
    (any is_abort es ≡ false) × (CausedIn id view es (how ok c) ⊎ Decided id view turns ok c)

turn-Advances :
    (id : String) (view : ViewWire) (es : List Event) (h : Hub)
    → Awaits id view h
    → Awaits id view (turn es h)
      × ((s : Settled)
          → (turn es h).race.first ≡ some s
          → (h.race.first ≡ some s) ⊎ CausedIn id view es s)
      × ((turn es h).race.aborted ≡ any is_abort es || h.race.aborted)
unfolding turn CausedIn
turn-Advances id view [] h awaits = (awaits, λ s settled. inl settled, refl)
turn-Advances id view (e ∷ es) h awaits =
    let (awaits', settles, aborts) = handle-Advances id view e h awaits in
    let (later, settles', aborts') = turn-Advances id view es (handle e h) awaits' in
    (
      later,
      λ s settled. elim (settles' s settled) [
        | inr after ↦ inr (inr after)
        | inl before ↦ elim (settles s before) [ inl old ↦ inl old | inr now ↦ inr (inl now) ]
      ],
      ground arith,
    )

neither : (a b : Bool) → a || b ≡ false → (a ≡ false) × (b ≡ false)
neither a b h = ground arith

conclude-decided :
    (id : String) (now : ℕ) (r : Race) (h : Hub) (ok : Bool) (c : ApprovalChannel)
    → (conclude id now r h).1 ≡ decided ok c
    → (r.aborted ≡ false) × (r.first ≡ some (how ok c))
unfolding conclude
conclude-decided id now r h ok c answered = ground arith

conclude-waiting :
    (id : String) (now : ℕ) (r : Race) (h : Hub)
    → (conclude id now r h).1 ≡ waiting
    → ((conclude id now r h).0 ≡ h) × (r.aborted ≡ false) × (r.first ≡ none)
unfolding conclude
conclude-waiting id now r h answered = ground arith

-- `decide_finish` leaves a pending entry, or records what it answers and clears the entry.
abbrev pub Recorded : String → ℕ → ViewWire → Hub → DecideResult → Type 0
Recorded id now view h waiting = Awaits id view h
Recorded id now view h rejected = (h.pending ≡ none) × (h.last ≡ some (outcome id canceled tty now))
Recorded id now view h (decided ok c) =
    (h.pending ≡ none) × (h.last ≡ some (outcome id (decision_of ok) c now))

conclude-Recorded :
    (id : String) (now : ℕ) (view : ViewWire) (a : Bool) (first : Option Settled) (h : Hub)
    → Awaits id view h
    → let x = conclude id now (record { aborted = a; first = first }) h in
      Recorded id now view x.0 x.1
unfolding conclude
conclude-Recorded id now view true s h awaits = (refl, refl)
conclude-Recorded id now view false none h awaits = awaits
conclude-Recorded id now view false (some (by_tty ok)) h awaits = (refl, refl)
conclude-Recorded id now view false (some (by_socket ok)) h awaits = (refl, refl)
conclude-Recorded id now view false (some tty_error) h awaits = (refl, refl)

unfoldable pub continued : String → ℕ → List (List Event) → Hub × DecideResult → Hub × DecideResult
unfolding await_turns
continued id now turns (h, waiting) = await_turns id now turns h
continued id now turns (h, rejected) = (h, rejected)
continued id now turns (h, decided ok c) = (h, decided ok c)

step_result : String → ℕ → List (List Event) → Hub × DecideResult → Hub × DecideResult
unfolding await_turns
step_result id now turns (h', r) =
    let rest = await_turns id now turns h' in
    elim r [ waiting ↦ rest | rejected ↦ (h', rejected) | decided ok c ↦ (h', decided ok c) ]

step_result-continued :
    (id : String) (now : ℕ) (turns : List (List Event)) (x : Hub × DecideResult)
    → step_result id now turns x ≡ continued id now turns x
unfolding step_result continued
step_result-continued id now turns (h', waiting) = refl
step_result-continued id now turns (h', rejected) = refl
step_result-continued id now turns (h', decided ok c) = refl

await_turns-continued :
    (id : String) (now : ℕ) (es : List Event) (turns : List (List Event)) (h : Hub)
    → await_turns id now (es ∷ turns) h
      ≡ continued id now turns (conclude id now (turn es h).race (turn es h))
unfolding await_turns step_result decide_finish
await_turns-continued id now es turns h =
    step_result-continued id now turns (conclude id now (turn es h).race (turn es h))

continued-Recorded :
    (id : String) (now : ℕ) (view : ViewWire) (turns : List (List Event))
    → ((h : Hub)
        → Awaits id view h
        → Recorded id now view (await_turns id now turns h).0 (await_turns id now turns h).1)
    → (x : Hub × DecideResult) → Recorded id now view x.0 x.1
    → Recorded id now view (continued id now turns x).0 (continued id now turns x).1
unfolding continued
continued-Recorded id now view turns rest (h', waiting) still = rest h' still
continued-Recorded id now view turns rest (h', rejected) recorded = recorded
continued-Recorded id now view turns rest (h', decided ok c) recorded = recorded

continued-cases :
    (id : String) (now : ℕ) (turns : List (List Event)) (x : Hub × DecideResult) (ok : Bool)
    (c : ApprovalChannel)
    → (continued id now turns x).1 ≡ decided ok c
    → (x.1 ≡ decided ok c) ⊎ (x.1 ≡ waiting) × ((await_turns id now turns x.0).1 ≡ decided ok c)
unfolding continued
continued-cases id now turns (h', waiting) ok c answered = inr (refl, answered)
continued-cases id now turns (h', rejected) ok c answered = inl answered
continued-cases id now turns (h', decided ok' c') ok c answered = inl answered

-- Over all turns the hub holds the entry while it waits, and then the outcome that is answered.
await_turns-Recorded :
    (id : String) (now : ℕ) (view : ViewWire) (turns : List (List Event)) (h : Hub)
    → Awaits id view h
    → Recorded id now view (await_turns id now turns h).0 (await_turns id now turns h).1
unfolding await_turns
await_turns-Recorded id now view [] h awaits = awaits
await_turns-Recorded id now view (es ∷ turns) h awaits =
    rw (await_turns-continued id now es turns h) (
      continued-Recorded id now view turns (await_turns-Recorded id now view turns)
        (conclude id now (turn es h).race (turn es h))
        (conclude-Recorded id now view (turn es h).race.aborted (turn es h).race.first (turn es h)
          (turn-Advances id view es h awaits).0))

await_turns-Decided :
    (id : String) (now : ℕ) (view : ViewWire) (turns : List (List Event)) (h : Hub) (ok : Bool)
    (c : ApprovalChannel)
    → Awaits id view h
    → h.race.first ≡ none
    → (await_turns id now turns h).1 ≡ decided ok c
    → (h.race.aborted ≡ false) × Decided id view turns ok c
unfolding await_turns Decided
await_turns-Decided id now view [] h ok c awaits unsettled answered = cc
await_turns-Decided id now view (es ∷ turns) h ok c awaits unsettled answered =
    let (awaits', settles, aborts) = turn-Advances id view es h awaits in
    let ended = turn es h in
    elim (continued-cases id now turns (conclude id now ended.race ended) ok c
      (sym (ap (λ x. x.1) (await_turns-continued id now es turns h)) ∙ answered)) [
        | inl done ↦
            let (calm, settled) = conclude-decided id now ended.race ended ok c done in
            let (calm_turn, calm_before) =
              neither (any is_abort es) h.race.aborted (sym aborts ∙ calm) in
            (
              calm_before,
              (
                calm_turn,
                elim (settles (how ok c) settled) [
                  | inl before ↦ cc
                  | inr now_caused ↦ inl now_caused
                ],
              ),
            )
        | inr (still, later) ↦
            let (same, calm, open_race) = conclude-waiting id now ended.race ended still in
            let (calm_turn, calm_before) =
              neither (any is_abort es) h.race.aborted (sym aborts ∙ calm) in
            let rest =
              await_turns-Decided id now view turns ended ok c awaits' open_race
                (subst (λ x. (await_turns id now turns x).1 ≡ decided ok c) same later) in
            (calm_before, (calm_turn, inr rest.1))
      ]

-- `decide` answers that the human approved or declined, on the terminal or the socket, only
-- when the signal was not aborted at its start nor in any turn up to the one that decides, and in
-- one of those turns an event asked for that decision: an approval on the socket is a submitted id
-- equal to the one of this request with a sha that, trimmed, is the short sha of the shown view, and
-- one on the terminal is the prompt's own yes.
pub decide-Decided :
    (id : String) (now : ℕ) (view : ViewWire) (signal_aborted : Bool) (turns : List (List Event))
    (h : Hub) (ok : Bool) (c : ApprovalChannel)
    → (decide id now view signal_aborted turns h).1 ≡ decided ok c
    → (signal_aborted ≡ false) × Decided id view turns ok c
unfolding decide decide_start
decide-Decided id now view signal_aborted turns h ok c answered =
    let start : Hub = decide_start id now view signal_aborted h in
    let entry : PendingState = record {
      id = id;
      started_at = now;
      attempts_left = attempts_init;
      view = view;
      resolved = false;
    } in
    await_turns-Decided id now view turns start ok c (entry, refl, refl, refl) refl answered

-- Whatever the turns of a run of `decide` hold, the hub keeps the request pending, with its id and its
-- view, for as long as `decide` waits; when it is rejected or answers, nothing is pending any more,
-- and the last outcome is exactly the decision and the channel that are answered, or canceled.
pub decide-Recorded :
    (id : String) (now : ℕ) (view : ViewWire) (signal_aborted : Bool) (turns : List (List Event))
    (h : Hub)
    → let (h', r) = decide id now view signal_aborted turns h in Recorded id now view h' r
unfolding decide decide_start
decide-Recorded id now view signal_aborted turns h =
    let start : Hub = decide_start id now view signal_aborted h in
    let entry : PendingState = record {
      id = id;
      started_at = now;
      attempts_left = attempts_init;
      view = view;
      resolved = false;
    } in
    await_turns-Recorded id now view turns start (entry, refl, refl, refl)
