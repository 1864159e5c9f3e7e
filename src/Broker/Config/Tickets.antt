-- ===== src/Broker/Config/Tickets.antt =====
-- broker/src/config.ts: the ticket of a worktrees root, and the registry of tickets.
use muti_repo_workspace.Prelude.{
  ℕ, Bool, true, false, not, ◌&&◌, ◌||◌, Option-cases, inl, inr, none, some, List, [], ◌∷◌, ◌++◌,
  any, all, All, Bool-cases, length, leb, ◌≤◌, ◌≢◌, ◌≡◌, ◌↔◌, refl, arith, ap, ◌∙◌, subst,
  if◌then◌else◌,
}
use muti_repo_workspace.Text.{codes, codes_eq, codes_eq_sound, codes_eq_refl}
use muti_repo_workspace.Text.Slices.{split_on, drop_empty, or_else}
use muti_repo_workspace.Spine.Effects.{Attempt, returned, threw}
use muti_repo_workspace.Broker.Git.Urls.{has_dots, is_name_unit}
use muti_repo_workspace.Broker.Config.Outside.{IsApart, is_within-IsApart}
use muti_repo_workspace.Broker.Config.{
  is_safe_ticket, ticket_at, ticket_in, ticket_from_worktrees_root, Disk, Roots,
  tickets_dir_is_coder_writable, is_true, is_entry, is_ticket_registered,
}

-- The segments that end a worktrees root of the ticket.
abbrev pub ticket_path : List ℕ → List (List ℕ)
ticket_path t = codes "tasks" ∷ t ∷ codes "repositories" ∷ []

-- The segments of a path.
abbrev pub segments : List ℕ → List (List ℕ)
segments root = drop_empty (split_on b'/' root)

if_some :
    (a b c : Bool) (x t : List ℕ)
    → (if a && (b && c) then some x else none) ≡ some t
    → (a ≡ true) × (b ≡ true) × (c ≡ true) × (x ≡ t)
if_some true true true x t e = (refl, refl, refl, ground arith)
if_some true true false x t e = cc
if_some true false c x t e = cc
if_some false b c x t e = cc

ticket_at-some :
    (seg : List ℕ) (rest : List (List ℕ)) (t : List ℕ)
    → ticket_at seg rest ≡ some t
    → (seg ∷ rest ≡ ticket_path t) × (is_safe_ticket t ≡ true)
unfolding ticket_at
ticket_at-some seg [] t e = cc
ticket_at-some seg (a ∷ []) t e = cc
ticket_at-some seg (a ∷ b ∷ c ∷ rest) t e = cc
ticket_at-some seg (ticket ∷ last ∷ []) t e =
    let (first, third, safe, same) =
      if_some (codes_eq seg (codes "tasks")) (codes_eq last (codes "repositories"))
        (is_safe_ticket ticket) ticket t e in
    (
      ap (λ s. s ∷ ticket ∷ last ∷ []) (codes_eq_sound seg (codes "tasks") first)
          ∙ ap (λ s. codes "tasks" ∷ s ∷ last ∷ []) same
          ∙ ap (λ s. codes "tasks" ∷ t ∷ s ∷ []) (codes_eq_sound last (codes "repositories") third),
      subst (λ s. is_safe_ticket s ≡ true) same safe,
    )

ticket_in-some :
    (segs : List (List ℕ)) (t : List ℕ)
    → ticket_in segs ≡ some t
    → (before : List (List ℕ)) × (segs ≡ before ++ ticket_path t) × (is_safe_ticket t ≡ true)
unfolding ticket_in or_else
ticket_in-some [] t e = cc
ticket_in-some (seg ∷ rest) t e = elim (Option-cases (ticket_in rest)) [
  | inl k ↦ let (same, safe) = ticket_at-some seg rest t (ground arith) in ([], same, safe)
  | inr (t', k) ↦
      let (before, same, safe) = ticket_in-some rest t (ground arith) in
      (seg ∷ before, ap (λ r. seg ∷ r) same, safe)
]

ticket_in-path :
    (before : List (List ℕ)) (t : List ℕ)
    → is_safe_ticket t ≡ true
    → ticket_in (before ++ ticket_path t) ≡ some t
unfolding ticket_in ticket_at or_else codes_eq
ticket_in-path [] t safe = ground arith
ticket_in-path (seg ∷ before) t safe = ground (arith, ticket_in-path before t)

-- A worktrees root has a ticket exactly when its segments end in `tasks`, a safe ticket and
-- `repositories`, and then that ticket.
pub ticket_from_worktrees_root_iff :
    (root t : List ℕ)
    → (ticket_from_worktrees_root root ≡ some t) ↔ (
        (before : List (List ℕ)) × (segments root ≡ before ++ ticket_path t)
        × (is_safe_ticket t ≡ true))
unfolding ticket_from_worktrees_root
ticket_from_worktrees_root_iff root t = (
  ticket_in-some (segments root) t,
  (λ (before, same, safe). ap ticket_in same ∙ ticket_in-path before t safe),
)

gate_passed :
    (safe dot dots two writable entry : Bool)
    → (if not safe || (dot || (dots || two)) then false else if writable then false else entry)
      ≡ true
    → (safe ≡ true)
      × (dot ≡ false)
      × (dots ≡ false)
      × (two ≡ false)
      × (writable ≡ false)
      × (entry ≡ true)
gate_passed true false false false false true e = (refl, refl, refl, refl, refl, refl)
gate_passed true false false false false false e = cc
gate_passed true false false false true entry e = cc
gate_passed true false false true writable entry e = cc
gate_passed true false true two writable entry e = cc
gate_passed true true dots two writable entry e = cc
gate_passed false dot dots two writable entry e = cc

is_true-returned : (a : Attempt Bool) → is_true a ≡ true → a ≡ returned true
is_true-returned (returned true) h = refl
is_true-returned (returned false) h = cc
is_true-returned (threw message) h = cc

any-split :
    (t : List ℕ) (es : List (List ℕ))
    → any (λ e. codes_eq e t) es ≡ true
    → (before after : List (List ℕ)) × (es ≡ before ++ t ∷ after)
any-split t [] h = cc
any-split t (e ∷ es) h = elim (Bool-cases (codes_eq e t)) [
  | inl here ↦ ([], es, ap (λ x. x ∷ es) (codes_eq_sound e t here))
  | inr other ↦
      let (before, after, same) = any-split t es (ground arith) in
      (e ∷ before, after, ap (λ r. e ∷ r) same)
]

-- One segment of a path: a name of up to 100 units without a slash, and neither `.` nor `..`.
pub record IsSegment (t : List ℕ) : Type 0 where
  pub no_slash : All (λ c. c ≢ b'/') t
  pub some_text : t ≢ []
  pub short : length t ≤ 100
  pub no_dot : t ≢ codes "."
  pub no_dots : t ≢ codes ".."

slashless : (t : List ℕ) → all is_name_unit t ≡ true → All (λ c. c ≢ b'/') t
slashless [] h = tt
slashless (c ∷ t) h = ((λ e. ground arith), slashless t (ground arith))

differs : (s t : List ℕ) → codes_eq s t ≡ false → s ≢ t
differs s t h e = let same = subst (λ x. codes_eq s x ≡ true) e (codes_eq_refl s) in cc

safe-IsSegment :
    (t : List ℕ)
    → is_safe_ticket t ≡ true
    → codes_eq t (codes ".") ≡ false
    → codes_eq t (codes "..") ≡ false
    → IsSegment t
unfolding is_safe_ticket
safe-IsSegment t safe dot dots = record {
  no_slash = slashless t (ground arith);
  some_text = λ e. let none_left = subst (λ x. leb 1 (length x) ≡ true) e (ground arith) in cc;
  short = ground arith;
  no_dot = differs t (codes ".") dot;
  no_dots = differs t (codes "..") dots;
}

-- The directory lists exactly this name, as a regular file.
abbrev pub Lists : {W P : Type 0} → Disk W P → List ℕ → List ℕ → W → Type 0
Lists disk dir ticket w =
    ((before after : List (List ℕ)) × (disk.read_dir dir w ≡ returned (before ++ ticket ∷ after)))
    × (disk.is_file dir ticket w ≡ returned true)

module _ {W P : Type 0} (disk : Disk W P) (roots : Roots) (ticket : List ℕ) (w : W) where
  is_entry-Lists :
      (dir : List ℕ) (a : Attempt (List (List ℕ)))
      → disk.read_dir dir w ≡ a
      → is_entry disk roots ticket dir w a ≡ true
      → Lists disk dir ticket w
  is_entry-Lists dir (threw message) read e = cc
  is_entry-Lists dir (returned entries) read e =
      let (before, after, same) = any-split ticket entries (ground arith) in
      (
        (before, after, read ∙ ap returned same),
        is_true-returned (disk.is_file dir ticket w) (ground arith),
      )

  tickets_dir-IsApart :
      (dir : List ℕ)
      → tickets_dir_is_coder_writable disk roots dir ≡ false
      → IsApart (disk.resolve dir) roots.tasks_root
        × IsApart (disk.resolve dir) roots.worktrees_root
  unfolding tickets_dir_is_coder_writable
  tickets_dir-IsApart dir h = (
    is_within-IsApart (disk.resolve dir) roots.tasks_root (ground arith),
    is_within-IsApart (disk.resolve dir) roots.worktrees_root (ground arith),
  )

  -- A ticket that counts as registered is one segment of a path, without a slash and neither `.` nor
  -- `..`; the resolved path of the registry is neither the root of the tasks nor the worktrees
  -- root, nor below one of them; and the registry lists exactly this name, which is a regular file.
  pub is_ticket_registered-Listed :
      is_ticket_registered disk roots ticket w ≡ true
      → IsSegment ticket
        × IsApart (disk.resolve roots.tickets_dir) roots.tasks_root
        × IsApart (disk.resolve roots.tickets_dir) roots.worktrees_root
        × Lists disk roots.tickets_dir ticket w
  unfolding is_ticket_registered
  is_ticket_registered-Listed e =
      let (safe, dot, dots, two, apart, listed) =
        gate_passed (is_safe_ticket ticket) (codes_eq ticket (codes "."))
          (codes_eq ticket (codes "..")) (has_dots ticket)
          (tickets_dir_is_coder_writable disk roots roots.tickets_dir)
          (is_entry disk roots ticket roots.tickets_dir w (disk.read_dir roots.tickets_dir w)) e in
      let (apart_tasks, apart_worktrees) = tickets_dir-IsApart roots.tickets_dir apart in
      (
        safe-IsSegment ticket safe dot dots,
        apart_tasks,
        apart_worktrees,
        is_entry-Lists roots.tickets_dir (disk.read_dir roots.tickets_dir w) refl listed,
      )
