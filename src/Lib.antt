-- ===== src/Lib.antt =====
-- A workspace in which a language model drives work on several repositories of a ticket, and nothing
-- is pushed before a human has approved it at a broker that the model's containers cannot reach.
--
-- The parts that are modelled, with the names of the source in snake case:
--
-- harness/src/types.ts, the typed verdicts of the model sessions: Contracts.
--
-- harness/src/spine/ledger.ts, the ledger of a session with its verdicts, budgets and publish gate:
-- Spine/Ledger for the data and the methods, where a method that mutates the ledger returns the new
-- one; Spine/Ledger/Store for the snapshot, `load` and `persist`, over JavaScript's `JSON` as a
-- parameter; what a text reads as is a `Stored`, and the schemas are `entry_schema_ok` and
-- `ledger_schema_ok`. Proofs: Gate (what the gate asks for), Trace and Provenance (what a passing gate rests on), Restore.
--
-- harness/src/spine/actions.ts and executor.ts, the nine actions that the model may ask for:
-- Spine/Actions for the types, Spine/Effects for what the executor calls, as a record of functions
-- over a state `W` of the outside, of which nothing is assumed; Spine/Executor/State for the closure
-- variables, Steps and Publish for the cases of `runAction`, Dispatch for `dispatch`, Session for
-- the dispatches of one executor in order. A promise that rejects is `rejected`. A dispatch that
-- arrives while another is awaited is refused as busy and changes nothing, so a session is the list
-- of its dispatches. Proofs: Serial, Budget, Calls, Sending, Permits, Rights and Safety (the calls
-- that a dispatch may make), Evidence and Provenance (from a passing gate back to the runs).
--
-- harness/src/orchestrator.ts, the pipeline of one repo without the chat: Orchestrator for the types, a
-- round of review and tests, and the calls as a record of functions (`Pipeline`);
-- Orchestrator/FixLoop for the loop, on the fixes that are left, and `runOrchestrator`, where the
-- fixes allowed (`MAX_FIX_ATTEMPTS`) are an argument. Proofs: Clean (how the loop ends), Published,
-- Shipping (a pipeline on which every step succeeds).
--
-- harness/src/spined/lock.ts, the lock of a ticket's daemon: Lock has the phases of `acquireLock` and
-- `release`, one file system call at a time, and the interleavings of two daemons. Proofs: Exclusion
-- (no stale lock), Takeover (a stale lock).
--
-- harness/src/triage.ts, the filter of the repos that the model names: Triage.
--
-- harness/src/multi, the driver that takes a ticket through several repos: Multi for the data and the
-- choice of the repos, Multi/Actions for what the driver calls and for the chain of its calls, which an
-- exception ends, and Multi/Driver for `runDriver`, which runs `runOrchestrator` on each repo. The state
-- file of the ticket is kept beside the outside, since a write renames the new file into place. Proofs:
-- Triples (chains of calls), Kept (published repos), Recorded, Told and Exit (the exit code), Returns and
-- Progress (a run in which every call succeeds).
--
-- serve/src/diff.ts, the parser of the diff that the approver is shown, on texts as lists of code units:
-- Diff for its types, Diff/Quoting and Diff/Paths for the paths, Diff/Draft for the draft of a file and
-- the hunk headers, Diff/Headers for the header lines as tables of prefixes and handlers, Diff/Parser for
-- the loop over the lines, whose variables are `Parsing`. Node's `Buffer` is a parameter (`Utf8`), and a
-- number is exact where JavaScript rounds above 2^53. Proofs: Quoting/RoundTrip (quoted paths),
-- Headers/Kept, Numbering (line numbers), Ranges, Bodies, Sections and RoundTrip (the diffs of
-- Printed), Mistaken (lines of a hunk read as header lines). Text/Slices and Text/Numbers have the
-- operations on texts.
--
-- broker/src/gate.ts and approval-types.ts, the approval hub: Broker/Hub for its state and methods,
-- Broker/Hub/Turns for `decide`. The race of promises is modelled by turns of the event loop: the
-- events of a turn are handled in order, and the rest of `decide` runs after the turn in which a
-- promise has settled. Proofs: Decisions (one event), Approval (a run),
-- Attempts (wrong shas).
--
-- broker/src/handler.ts, the decision procedure for a publish request, on a request that has
-- validated: Broker/Handler for the types and for `Host`, the answers of git, gh, the disk and the
-- reviewer over a state `W` of the outside, of which nothing is assumed; Broker/Handler/Publish for
-- `handleRequest`, whose early returns are a chain of checks, and which an exception of git or gh at the
-- push ends (`raised`). Proofs: Checks (chains), Cleared (what
-- the checks find), Pushed (what holds at the push), Reported (what the hub is told).
--
-- broker/src/git.ts: Broker/Git/Urls has `canonicalHttpsUrl`, and Broker/Git/Rendering has
-- `renderGroundTruth`, with its calls of git as values and what git answers as a parameter; Complete has
-- its proofs. The handler takes both functions as fields of `Host`, on texts of the language.
--
-- broker/src/config.ts and the resolution of worktrees of handler.ts: Broker/Config, with the constants
-- from the environment as a record (`Roots`) and Node's path and fs as another (`Disk`); a path is a list
-- of code units with `/` as its separator. Proofs: Outside (what the tests of paths mean), Tickets
-- (tickets and their registry), Contained (the policy and the worktrees). The handler takes these
-- functions as fields of `Host`.
--
-- The harness hands a publish intent to the broker through `publish` of harness/src/publish.ts, which
-- is a parameter on the harness's side; its answer is recorded in the ledger.
--
-- The fix loop recurs on the number of fixes that are left, and the driver and the diff parser on lists,
-- so they end without fuel. A session, a turn, a run of `decide` and an interleaving are lists, and
-- `decide` answers `waiting` when the turns end before a promise has settled. One time stamp stands for
-- the start of a decision and its end.
--
-- Error texts are kept where another part reads them, as constructors that hold the values shown,
-- and abridged otherwise. Log lines are left out.
--
-- Not modelled: the arguments and reports of the multi-repo driver and its worktrees, the model session
-- of triage, the rest of the browser view in serve, the sockets and prompts of the broker, and the
-- containers' scripts.
pub mod Prelude
pub mod Text
pub mod Contracts
pub mod Spine
pub mod Orchestrator
pub mod Diff
pub mod Lock
pub mod Multi
pub mod Triage
pub mod Broker
mod Tests
