-- ===== src/Multi/Recorded.antt =====
-- harness/src/multi/driver.ts: what `prepare` and the decline of a plan leave in the saved state.
use muti_repo_workspace.Prelude.{
  String, Bool, true, false, ◌||◌, none, some, List, [], ◌∷◌, lookup, put, lookup-put, any, str_eq,
  ◌≡◌, refl, arith, ap, ◌∙◌, if◌then◌else◌,
}
use muti_repo_workspace.Spine.Effects.{Attempt, returned, threw}
use muti_repo_workspace.Multi.{
  RepoConfig, RepoOutcome, RepoState, TicketState, DriverArgs, WorkItem, is_published, is_declined,
}
use muti_repo_workspace.Multi.Actions.{Host, Machine, ◌>>=◌, pure, calls, save_state}
use muti_repo_workspace.Multi.Driver.{
  set_repo_state, prepare, decline_all, plan_declined_state, pending_state,
}
use muti_repo_workspace.Multi.Triples.{
  Ends, Ensures, bind-Ensures, Ends-map, calls-Ensures, save_state-Ensures,
}

-- The state has an entry for the name, with such an outcome.
unfoldable pub has_outcome : (RepoOutcome → Bool) → TicketState → String → Bool
has_outcome p state name = elim (lookup name state.repos) [ none ↦ false | some r ↦ p r.outcome ]

abbrev pub named : String → List WorkItem → Bool
named n work = any (λ (it : WorkItem). str_eq it.name n) work

abbrev pub selects : String → List RepoConfig → Bool
selects n repos = any (λ (r : RepoConfig). str_eq r.name n) repos

pub has_outcome-put :
    (p : RepoOutcome → Bool) (state : TicketState) (k n : String) (entry : RepoState)
    → has_outcome p (record state { repos = put k entry state.repos }) n
      ≡ (if str_eq k n then p entry.outcome else has_outcome p state n)
unfolding has_outcome
has_outcome-put p state k n entry = ground (arith, lookup-put k n entry state.repos)

module _ {W : Type 0} (host : Host W) where
  abbrev pub Saves : TicketState → Machine W → Type 0
  Saves st s = s.saved ≡ some st

  abbrev pub Anything : Machine W → Type 0
  Anything s = Unit

  abbrev pub puts : TicketState → String → RepoState → TicketState
  puts state n entry = record state { repos = put n entry state.repos }

  pub saves :
      (state : TicketState)
      → Ensures Anything
          (λ st s. Saves st s × (st ≡ state))
          Anything
          (save_state host state >>= (λ _. pure state))
  unfolding pure
  saves state =
      bind-Ensures Anything (λ _ s. s.saved ≡ some state) (λ st s. Saves st s × (st ≡ state))
        Anything (save_state host state) (λ _. pure state)
        (save_state-Ensures host state (λ o. Unit)) (λ _ s same. (same, refl))

  pub set_repo_state-Saves :
      (state : TicketState) (n : String) (entry : RepoState)
      → Ensures Anything
          (λ st s. Saves st s × (st ≡ puts state n entry))
          Anything
          (set_repo_state host state n entry)
  unfolding set_repo_state
  set_repo_state-Saves state n entry = saves (puts state n entry)

  pub calls-Saves :
      {A : Type 0} (st : TicketState) (f : W → Attempt A × W)
      → Ensures (Saves st) (λ _ s. Saves st s) Anything (calls f)
  unfolding calls
  calls-Saves {A} st f s saved = go (f s.world).0
    where
      go :
          (r : Attempt A)
          → Ends (λ _ s'. Saves st s') Anything (r, record s { world = (f s.world).1 })
      go (returned a) = saved
      go (threw message) = tt

  -- Behind `decline_all` every repo of the work is declined, and so is each that was before.
  abbrev pub Declining : TicketState → List WorkItem → TicketState → Machine W → Type 0
  Declining state work st s =
      Saves st s
      × ((n : String)
          → has_outcome is_declined state n || named n work ≡ true
          → has_outcome is_declined st n ≡ true)

  pub decline_all-Declining :
      (branch : String) (state : TicketState) (work : List WorkItem)
      → Ensures (Saves state) (Declining state work) Anything (decline_all host branch state work)
  unfolding decline_all pure
  decline_all-Declining branch state [] = λ s saved. (saved, λ n h. ground arith)
  decline_all-Declining branch state (it ∷ work) = λ s saved.
      bind-Ensures Anything
        (λ st s. Saves st s × (st ≡ puts state it.name (plan_declined_state branch it.repo_dir)))
        (Declining state (it ∷ work)) Anything _ (λ st. decline_all host branch st work)
        (set_repo_state-Saves state it.name (plan_declined_state branch it.repo_dir))
        (λ st s (saved, same).
          Ends-map (Declining st work) (Declining state (it ∷ work)) Anything
            (λ st' s' (saved', keeps). (saved', λ n h. keeps n (carried st same n h)))
            (decline_all host branch st work s) (decline_all-Declining branch st work s saved))
        s tt
    where
      carried :
          (st : TicketState)
          → st ≡ puts state it.name (plan_declined_state branch it.repo_dir)
          → (n : String)
          → has_outcome is_declined state n || (str_eq it.name n || named n work) ≡ true
          → has_outcome is_declined st n || named n work ≡ true
      carried st same n h =
          let now =
            ap (λ x. has_outcome is_declined x n) same
            ∙ has_outcome-put is_declined state it.name n
                (plan_declined_state branch it.repo_dir) in
          ground arith

  -- Behind `prepare` a selected repo is published or in the work, and the work is selected.
  abbrev pub Readied :
      TicketState → List RepoConfig → TicketState × List WorkItem → Machine W → Type 0
  Readied state repos (st, work) s =
      Saves st s
      × ((n : String)
          → has_outcome is_published state n || selects n repos ≡ true
          → has_outcome is_published st n || named n work ≡ true)
      × ((n : String) → named n work ≡ selects n repos)

  pub prepare-Readied :
      (args : DriverArgs) (branch purpose : String) (state : TicketState) (repos : List RepoConfig)
      → Ensures
          (Saves state)
          (Readied state repos)
          Anything
          (prepare host args branch purpose state repos)
  unfolding prepare pure
  prepare-Readied args branch purpose state [] =
      λ s saved. (saved, (λ n h. ground arith), (λ n. refl))
  prepare-Readied args branch purpose state (repo ∷ repos) = λ s saved.
      bind-Ensures Anything (λ _ s. Anything s) (Readied state (repo ∷ repos)) Anything
        (calls (host.exec_setup_worktree repo args.ticket branch purpose)) _
        (calls-Ensures (λ o. Unit) (host.exec_setup_worktree repo args.ticket branch purpose))
        (λ setup.
          bind-Ensures Anything
            (λ st s. Saves st s × (st ≡ puts state repo.name (pending_state branch setup.repo_dir)))
            (Readied state (repo ∷ repos)) Anything _ _
            (set_repo_state-Saves state repo.name (pending_state branch setup.repo_dir))
            (λ st s (saved, same).
              bind-Ensures (Saves st) (λ _ s. Saves st s) (Readied state (repo ∷ repos)) Anything
                (calls (host.run_plan state.instruction setup.repo_dir)) _
                (calls-Saves st (host.run_plan state.instruction setup.repo_dir))
                (λ plan.
                  bind-Ensures (Saves st) (Readied st repos) (Readied state (repo ∷ repos)) Anything
                    _
                    (λ p. pure (
                      p.0,
                      (record {
                        name = repo.name;
                        repo_dir = setup.repo_dir;
                        plan = plan;
                        base_sha = setup.base_sha;
                      })
                          ∷ p.1,
                    ))
                    (prepare-Readied args branch purpose st repos)
                    (λ p s (saved, cover, names). (
                      saved,
                      (λ n h.
                          covered st (pending_state branch setup.repo_dir) same refl p n (cover n)
                            h),
                      (λ n. ap (λ b. str_eq repo.name n || b) (names n)),
                    )))
                s saved))
        s tt
    where
      covered :
          (st : TicketState) (entry : RepoState)
          → st ≡ puts state repo.name entry
          → is_published entry.outcome ≡ false
          → (p : TicketState × List WorkItem) (n : String)
          → (has_outcome is_published st n || selects n repos ≡ true
              → has_outcome is_published p.0 n || named n p.1 ≡ true)
          → has_outcome is_published state n || (str_eq repo.name n || selects n repos) ≡ true
          → has_outcome is_published p.0 n || (str_eq repo.name n || named n p.1) ≡ true
      covered st entry same waits p n cover h =
          let now =
            ap (λ x. has_outcome is_published x n) same
            ∙ has_outcome-put is_published state repo.name n entry in
          ground arith
