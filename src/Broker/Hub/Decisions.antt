-- ===== src/Broker/Hub/Decisions.antt =====
-- What a decision of broker/src/gate.ts comes from.
use muti_repo_workspace.Prelude.{
  String, Bool, true, false, ◌||◌, sym, ◌∙◌, some, ◌≡◌, refl, subst, ◌⊎◌, inl, inr, arith, eq_iff,
  Bool-cases, leb, ◌-◌,
}
use muti_repo_workspace.Text.{codes, trim, codes_eq, codes_eq_sound}
use muti_repo_workspace.Broker.Hub.{
  Hub, PendingState, ViewWire, Race, Settled, by_tty, by_socket, tty_error, resolve, settle_first,
  submit_approve, approve_pending, submit_decline, sha_matches,
}
use muti_repo_workspace.Broker.Hub.Turns.{
  Event, approve_sent, decline_sent, tty_settles, tty_fails, abort, handle,
}

-- The pending entry is this approval.
abbrev pub Awaits : String → ViewWire → Hub → Type 0
Awaits id view h = (p : PendingState) × (h.pending ≡ some p) × (p.id ≡ id) × (p.view ≡ view)

-- An event that can settle the race so.
abbrev pub Causes : String → ViewWire → Event → Settled → Type 0
Causes id view (approve_sent k sha) (by_socket true) =
    (k ≡ id) × (trim (codes sha) ≡ codes view.short_sha)
Causes id view (approve_sent k sha) (by_socket false) = k ≡ id
Causes id view (decline_sent k) (by_socket false) = k ≡ id
Causes id view (tty_settles ok) (by_tty b) = ok ≡ b
Causes id view tty_fails tty_error = Unit
Causes _ _ _ _ = ⊥

abbrev pub Settles : String → ViewWire → Event → Hub → Hub → Type 0
Settles id view e h h' =
    (s : Settled) → h'.race.first ≡ some s → (h.race.first ≡ some s) ⊎ Causes id view e s

-- The step leaves the entry pending, and settles the race only by this event.
abbrev Advances : String → ViewWire → Event → Hub → Hub → Type 0
Advances id view e h h' =
    Awaits id view h' × Settles id view e h h' × (h'.race.aborted ≡ h.race.aborted)

settle_first-cases :
    (s : Settled) (r : Race) (t : Settled)
    → (settle_first s r).first ≡ some t
    → (r.first ≡ some t) ⊎ (s ≡ t)
settle_first-cases s r t settled = ground arith

resolve-Advances :
    (id : String) (view : ViewWire) (e : Event) (answer : Bool) (p : PendingState) (h : Hub)
    → Causes id view e (by_socket answer)
    → h.pending ≡ some p
    → p.id ≡ id
    → p.view ≡ view
    → Advances id view e h (resolve answer p h)
resolve-Advances id view e answer p h caused there same viewed = elim (Bool-cases p.resolved) [
  | inl done ↦ rw (done, there) ((p, refl, same, viewed), λ s settled. inl settled, refl)
  | inr fresh ↦ rw (fresh) (
    (record p { resolved = true }, refl, same, viewed),
    λ s settled. elim (settle_first-cases (by_socket answer) h.race s settled) [
      | inl already ↦ inl already
      | inr now ↦ inr (subst (Causes id view e) now caused)
    ],
    refl,
  )
]

stays-Advances :
    (id : String) (view : ViewWire) (e : Event) (h : Hub)
    → Awaits id view h
    → Advances id view e h h
stays-Advances id view e h awaits = (awaits, λ s settled. inl settled, refl)

approve_pending-Advances :
    (k id sha : String) (view : ViewWire) (p : PendingState) (h : Hub)
    → h.pending ≡ some p
    → p.id ≡ id
    → p.view ≡ view
    → k ≡ id
    → Advances id view (approve_sent k sha) h (approve_pending sha p h).0
unfolding approve_pending
approve_pending-Advances k id sha view p h there same viewed named =
    elim (Bool-cases (sha_matches sha p)) [
      | inl right ↦ rw (right) (
          resolve-Advances id view (approve_sent k sha) true p h
            (
              named,
              codes_eq_sound (trim (codes sha)) (codes view.short_sha) (
                  subst (λ v. codes_eq (trim (codes sha)) (codes v.short_sha) ≡ true) viewed right),
            )
            there same viewed)
      | inr wrong ↦
          let p' : PendingState = record p { attempts_left = p.attempts_left - 1 } in
          let h' : Hub = record h { pending = some p' } in
          elim (Bool-cases (leb (p.attempts_left - 1) 0)) [
            | inl out ↦
                rw (wrong, out)
                  (resolve-Advances id view (approve_sent k sha) false p' h' named refl same viewed)
            | inr more ↦ rw (wrong, more) ((p', refl, same, viewed), λ s settled. inl settled, refl)
          ]
    ]

submit_approve-cases :
    (k sha : String) (p : PendingState) (h : Hub)
    → h.pending ≡ some p
    → ((submit_approve k sha h).0 ≡ h)
      ⊎ (p.id ≡ k) × ((submit_approve k sha h).0 ≡ (approve_pending sha p h).0)
unfolding submit_approve
submit_approve-cases k sha p h there = ground (arith, eq_iff p.id k)

submit_decline-cases :
    (k : String) (p : PendingState) (h : Hub)
    → h.pending ≡ some p
    → ((submit_decline k h).0 ≡ h) ⊎ (p.id ≡ k) × ((submit_decline k h).0 ≡ resolve false p h)
unfolding submit_decline
submit_decline-cases k p h there = ground (arith, eq_iff p.id k)

submit_approve-Advances :
    (k id sha : String) (view : ViewWire) (h : Hub)
    → Awaits id view h
    → Advances id view (approve_sent k sha) h (submit_approve k sha h).0
submit_approve-Advances k id sha view h (p, there, same, viewed) =
    let e : Event = approve_sent k sha in
    elim (submit_approve-cases k sha p h there) [
      | inl idle ↦
          subst (Advances id view e h) (sym idle)
            (stays-Advances id view e h (p, there, same, viewed))
      | inr (named, acts) ↦
          subst (Advances id view e h) (sym acts)
            (approve_pending-Advances k id sha view p h there same viewed (sym named ∙ same))
    ]

submit_decline-Advances :
    (k id : String) (view : ViewWire) (h : Hub)
    → Awaits id view h
    → Advances id view (decline_sent k) h (submit_decline k h).0
submit_decline-Advances k id view h (p, there, same, viewed) =
    let e : Event = decline_sent k in
    elim (submit_decline-cases k p h there) [
      | inl idle ↦
          subst (Advances id view e h) (sym idle)
            (stays-Advances id view e h (p, there, same, viewed))
      | inr (named, acts) ↦
          subst (Advances id view e h) (sym acts)
            (resolve-Advances id view e false p h (sym named ∙ same) there same viewed)
    ]

unfoldable pub is_abort : Event → Bool
is_abort abort = true
is_abort _ = false

-- One event: the entry stays pending, the race settles only by the event, and an abort is kept.
pub handle-Advances :
    (id : String) (view : ViewWire) (e : Event) (h : Hub)
    → Awaits id view h
    → Awaits id view (handle e h)
      × Settles id view e h (handle e h)
      × ((handle e h).race.aborted ≡ is_abort e || h.race.aborted)
unfolding handle is_abort
handle-Advances id view (approve_sent k sha) h awaits =
    submit_approve-Advances k id sha view h awaits
handle-Advances id view (decline_sent k) h awaits = submit_decline-Advances k id view h awaits
handle-Advances id view (tty_settles ok) h awaits = (
  awaits,
  λ s settled. elim (settle_first-cases (by_tty ok) h.race s settled) [
    | inl already ↦ inl already
    | inr now ↦ inr (subst (Causes id view (tty_settles ok)) now refl)
  ],
  refl,
)
handle-Advances id view tty_fails h awaits = (
  awaits,
  λ s settled. elim (settle_first-cases tty_error h.race s settled) [
    | inl already ↦ inl already
    | inr now ↦ inr (subst (Causes id view tty_fails) now tt)
  ],
  refl,
)
handle-Advances id view abort h awaits = (awaits, λ s settled. inl settled, refl)
