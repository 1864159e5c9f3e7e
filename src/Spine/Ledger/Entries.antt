-- ===== src/Spine/Ledger/Entries.antt =====
-- What a method of harness/src/spine/ledger.ts does to the entry of a repo, as a rewriting rule.
use mathlib.Core.Option
use muti_repo_workspace.Prelude.{String, ◌≡◌, str_eq, if◌then◌else◌, lookup-update}
use muti_repo_workspace.Spine.Ledger.{SpineLedger, RepoLedgerEntry, get_repo, on_entry}

pub get_repo-on_entry :
    (r k : String) (f : RepoLedgerEntry → RepoLedgerEntry) (l : SpineLedger)
    → get_repo r (on_entry k f l)
      ≡ (if str_eq k r then Option.map f (get_repo r l) else get_repo r l)
unfolding get_repo
get_repo-on_entry r k f l = lookup-update k r f l.repos
