-- ===== src/Spine/Ledger/Restore.antt =====
-- A ledger that is persisted and loaded again (harness/src/spine/ledger.ts).
use Prim.Native.String
use muti_repo_workspace.Prelude.{
  String, true, false, Option, none, some, [], ◌∷◌, ◌++◌, ◌≡◌, refl, arith, eq_iff, eq_refl, Dict,
  lookup, put, update, lookup-put, lookup-update, str_eq, Bool-cases, Option-cases, inl, inr, ap,
  sym, ◌∙◌,
}
use muti_repo_workspace.Spine.Ledger.{
  SpineLedger, RepoLedgerEntry, LedgerBudgets, LedgerRepoInit, SpineEnv, new_ledger, seed,
  fresh_entry,
}
use muti_repo_workspace.Spine.Ledger.Store.{
  Json, LedgerSnapshot, typed, restored, snapshot, restore, restore_repos, load, load_stored,
  ledger_schema_ok, persist, persist_target,
}
use mathlib.Core.List.{append_assoc, append-nil}

-- No name occurs twice, as in a `Map`.
abbrev pub HasDistinctKeys : Dict RepoLedgerEntry → Type 0
HasDistinctKeys [] = Unit
HasDistinctKeys ((k, e) ∷ m) = (lookup k m ≡ none) × HasDistinctKeys m

lookup-cons_eq_none :
    (k j : String) (e : RepoLedgerEntry) (m : Dict RepoLedgerEntry)
    → lookup k ((j, e) ∷ m) ≡ none
    → (str_eq j k ≡ false) × (lookup k m ≡ none)
unfolding lookup
lookup-cons_eq_none k j e m h = ground arith

put_new :
    (k : String) (e : RepoLedgerEntry) (m : Dict RepoLedgerEntry)
    → lookup k m ≡ none
    → put k e m ≡ m ++ (k, e) ∷ []
unfolding put
put_new k e [] h = refl
put_new k e ((j, w) ∷ m) h =
    let (differs, later) = lookup-cons_eq_none k j w m h in
    rw differs (ap (λ t. (j, w) ∷ t) (put_new k e m later))

-- A key that a joined map lacks is not the one in its middle.
lookup-append_ne :
    (j k : String) (m : Dict RepoLedgerEntry) (e : RepoLedgerEntry) (rest : Dict RepoLedgerEntry)
    → lookup j (m ++ (k, e) ∷ rest) ≡ none
    → str_eq k j ≡ false
lookup-append_ne j k [] e rest h = (lookup-cons_eq_none j k e rest h).0
lookup-append_ne j k ((i, w) ∷ m) e rest h =
    lookup-append_ne j k m e rest (lookup-cons_eq_none j i w (m ++ (k, e) ∷ rest) h).1

HasDistinctKeys-middle :
    (k : String) (m : Dict RepoLedgerEntry) (e : RepoLedgerEntry) (rest : Dict RepoLedgerEntry)
    → HasDistinctKeys (m ++ (k, e) ∷ rest)
    → lookup k m ≡ none
unfolding lookup
HasDistinctKeys-middle k [] e rest h = refl
HasDistinctKeys-middle k ((j, w) ∷ m) e rest (h, hs) = ground (
  arith,
  lookup-append_ne j k m e rest h,
  eq_iff k j,
  eq_iff j k,
  HasDistinctKeys-middle k m e rest hs,
)

restore_repos-append :
    (rest m : Dict RepoLedgerEntry) → HasDistinctKeys (m ++ rest) → restore_repos rest m ≡ m ++ rest
unfolding restore_repos
restore_repos-append [] m h = sym (append-nil m)
restore_repos-append ((k, e) ∷ rest) m h =
    let grown : put k e m ≡ m ++ (k, e) ∷ [] =
      put_new k e m (HasDistinctKeys-middle k m e rest h) in
    let regrouped : (m ++ (k, e) ∷ []) ++ rest ≡ m ++ (k, e) ∷ rest =
      append_assoc m ((k, e) ∷ []) rest in
    rw grown (restore_repos-append rest (m ++ (k, e) ∷ []) (rw regrouped h) ∙ regrouped)

lookup-put-none :
    (k j : String) (e : RepoLedgerEntry) (m : Dict RepoLedgerEntry)
    → lookup k m ≡ none
    → str_eq j k ≡ false
    → lookup k (put j e m) ≡ none
lookup-put-none k j e m h d = rw (lookup-put, d) h

put-HasDistinctKeys :
    (k : String) (e : RepoLedgerEntry) (m : Dict RepoLedgerEntry)
    → HasDistinctKeys m
    → HasDistinctKeys (put k e m)
unfolding put
put-HasDistinctKeys k e [] h = (unfold lookup in refl, tt)
put-HasDistinctKeys k e ((j, w) ∷ m) (h, hs) = elim (Bool-cases (str_eq j k)) [
  | inl same ↦ rw same (h, hs)
  | inr other ↦ rw other (
    lookup-put-none j k e m h (ground (arith, eq_iff j k, eq_iff k j)),
    put-HasDistinctKeys k e m hs,
  )
]

update-HasDistinctKeys :
    (k : String) (f : RepoLedgerEntry → RepoLedgerEntry) (m : Dict RepoLedgerEntry)
    → HasDistinctKeys m
    → HasDistinctKeys (update k f m)
unfolding update
update-HasDistinctKeys k f [] h = tt
update-HasDistinctKeys k f ((j, w) ∷ m) (h, hs) = elim (Bool-cases (str_eq j k)) [
  | inl same ↦ rw same (h, hs)
  | inr other ↦ rw other (
    ground (arith, lookup-update k j f m, eq_iff j k, eq_iff k j),
    update-HasDistinctKeys k f m hs,
  )
]

-- A ledger that the constructor made has each name once, whatever the entries given.
seed-HasDistinctKeys :
    (repos : Dict LedgerRepoInit) (m : Dict RepoLedgerEntry)
    → HasDistinctKeys m
    → HasDistinctKeys (seed repos m)
unfolding seed
seed-HasDistinctKeys [] m h = h
seed-HasDistinctKeys ((k, init) ∷ repos) m h =
    seed-HasDistinctKeys repos (put k (fresh_entry init) m)
      (put-HasDistinctKeys k (fresh_entry init) m h)

pub new_ledger-HasDistinctKeys :
    (env : SpineEnv) (ticket : String) (repos : Dict LedgerRepoInit) (budgets : LedgerBudgets)
    (dir : Option String)
    → HasDistinctKeys (new_ledger env ticket repos budgets dir).repos
unfolding new_ledger
new_ledger-HasDistinctKeys env ticket repos budgets dir = seed-HasDistinctKeys repos [] tt

load_stored-snapshot :
    (env : SpineEnv) (now dir : String) (l : SpineLedger)
    → HasDistinctKeys l.repos
    → ledger_schema_ok (snapshot now l) ≡ true
    → load_stored env l.ticket dir (typed (snapshot now l))
      ≡ restored (record l { default_dir = some dir })
unfolding load_stored restore new_ledger snapshot
load_stored-snapshot env now dir l distinct valid =
    rw (valid, eq_refl, restore_repos-append l.repos [] distinct)

persist-text :
    (stringify : LedgerSnapshot → String) (now : String) (dir : Option String) (l : SpineLedger)
    (target text : String)
    → persist stringify now dir l ≡ some (target, text)
    → text ≡ String.◌++◌ (stringify (snapshot now l)) "\n"
unfolding persist
persist-text stringify now dir l target text wrote = elim (Option-cases (persist_target dir l)) [
  | inl none_there ↦ ground arith
  | inr (there, found) ↦ ground arith
]

-- When `persist` has written a ledger with distinct names whose snapshot meets the schema, and the text
-- of that snapshot with a line feed reads as that snapshot again, `load` of the written directory and
-- text gives that ledger for its ticket, but for its directory: base shas, heads, verdicts, budgets
-- used, limits and instruction are those that were persisted, also where the defaults from the
-- environment differ.
pub load-persist :
    (env : SpineEnv) (json : Json) (now target text : String) (dir : Option String)
    (l : SpineLedger)
    → HasDistinctKeys l.repos
    → ledger_schema_ok (snapshot now l) ≡ true
    → json.parse (String.◌++◌ (json.stringify (snapshot now l)) "\n") ≡ typed (snapshot now l)
    → persist json.stringify now dir l ≡ some (target, text)
    → load env json l.ticket target (some text) ≡ restored (record l { default_dir = some target })
unfolding load
load-persist env json now target text dir l distinct valid reads_back wrote =
    let same = persist-text json.stringify now dir l target text wrote in
    ap (λ t. load_stored env l.ticket target (json.parse t)) same
    ∙ ap (load_stored env l.ticket target) reads_back
    ∙ load_stored-snapshot env now target l distinct valid
