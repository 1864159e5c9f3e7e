-- ===== src/Tests/Approvals.antt =====
-- A run of `decide` of broker/src/gate.ts: a wrong sha, then the right one from the browser.
use muti_repo_workspace.Prelude.{true, false, none, List, [], ◌∷◌, ◌≡◌, refl}
use muti_repo_workspace.Text.{codes_eq, trim}
use muti_repo_workspace.Broker.Hub.{Hub, ViewWire, socket, decided}
use muti_repo_workspace.Broker.Hub.Turns.{Event, approve_sent, decide}
use muti_repo_workspace.Broker.Hub.Attempts.{IsWrong, guess, decide_wrong}
use muti_repo_workspace.Broker.Hub.Approval.{Decided, Recorded, decide-Decided, decide-Recorded}

abbrev pub a_view : ViewWire
a_view = record {
  repo = "api";
  ticket = none;
  branch = "mrw/T-1";
  head_sha = "0123456789abcdef";
  title = "title";
  body = "";
  host = "github.com";
  org = "acme";
  target_repo = "api";
  url = "https://github.com/acme/api.git";
  commit_count = 1;
  commit_list = "";
  diff_stat = "";
  diff = "+";
  reviewer_verdict = none;
  test_caveat = false;
  short_sha = "0123456789ab";
}

abbrev pub an_idle_hub : Hub
an_idle_hub = record {
  pending = none;
  last = none;
  race = record { aborted = false; first = none };
}

abbrev turns : List (List Event)
turns = (approve_sent "id" "0123" ∷ []) ∷ (approve_sent "id" " 0123456789ab" ∷ []) ∷ []

approves : (decide "id" 7 a_view false turns an_idle_hub).1 ≡ decided true socket
unfolding decide codes_eq trim
approves = refl

decide-Decided_example : (false ≡ false) × Decided "id" a_view turns true socket
decide-Decided_example = decide-Decided "id" 7 a_view false turns an_idle_hub true socket approves

decide-Recorded_example :
    Recorded "id" 7 a_view
      (decide "id" 7 a_view false turns an_idle_hub).0
      (decide "id" 7 a_view false turns an_idle_hub).1
decide-Recorded_example = decide-Recorded "id" 7 a_view false turns an_idle_hub

cut_short : IsWrong a_view "0123"
unfolding codes_eq trim
cut_short = refl

blank : IsWrong a_view ""
unfolding codes_eq trim
blank = refl

decide_wrong_example :
    (decide "id" 7 a_view false
      (guess "id" "0123" ∷ guess "id" "" ∷ guess "id" "0123" ∷ turns)
      an_idle_hub).1
    ≡ decided false socket
decide_wrong_example =
    decide_wrong "id" 7 a_view an_idle_hub "0123" "" "0123" turns cut_short blank cut_short
