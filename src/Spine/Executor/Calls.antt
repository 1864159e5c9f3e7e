-- ===== src/Spine/Executor/Calls.antt =====
-- What harness/src/spine/executor.ts asks of the outside, as a list of calls: the outside's state
-- changes by the calls and by nothing else.
use muti_repo_workspace.Contracts.{Plan, Review}
use muti_repo_workspace.Prelude.{
  ℕ, ◌+◌, String, Bool, true, false, Option, List, [], ◌∷◌, ◌++◌, ◌≡◌, arith, if◌then◌else◌,
}
use muti_repo_workspace.Spine.Effects.{
  Effects, Attempt, returned, threw, WorkerPrompt, PublishContext, Question, confirm_publish,
  acknowledge_tests,
}
use muti_repo_workspace.Spine.Executor.State.{is_yes}

pub data Call : Type 0 where
  implements : String → WorkerPrompt → String → ℕ → Call
  tests : String → Call
  plans : String → Call
  reviews : Plan → String → Call
  publishes : PublishContext → String → Call
  asks : Question → Attempt String → Call
  says shows writes : Call

module _ {W : Type 0} (fx : Effects W) where
  -- The calls, in order, that lead from one state of the outside to another.
  pub data Calls : W → List Call → W → Type 0 where
    done : {w : W} → Calls w [] w
    implemented :
        (dir : String) (p : WorkerPrompt) (repo : String) (n : ℕ) {w w' : W} {cs : List Call}
        → Calls (fx.exec_implement dir p repo n w).1 cs w'
        → Calls w (implements dir p repo n ∷ cs) w'
    tested :
        (dir : String) {w w' : W} {cs : List Call}
        → Calls (fx.exec_tests dir w).1 cs w'
        → Calls w (tests dir ∷ cs) w'
    planned :
        (instruction dir : String) {w w' : W} {cs : List Call}
        → Calls (fx.run_plan instruction dir w).1 cs w'
        → Calls w (plans dir ∷ cs) w'
    reviewed :
        (instruction : String) (p : Plan) (diff dir : String) {w w' : W} {cs : List Call}
        → Calls (fx.run_review instruction p diff dir w).1 cs w'
        → Calls w (reviews p diff ∷ cs) w'
    published :
        (ctx : PublishContext) (dir : String) {w w' : W} {cs : List Call}
        → Calls (fx.publish ctx dir w).1 cs w'
        → Calls w (publishes ctx dir ∷ cs) w'
    asked_of :
        (q : Question) {w w' : W} {cs : List Call}
        → Calls (fx.ask_human q w).1 cs w'
        → Calls w (asks q (fx.ask_human q w).0 ∷ cs) w'
    said :
        (text : String) {w w' : W} {cs : List Call}
        → Calls (fx.say text w) cs w'
        → Calls w (says ∷ cs) w'
    shown :
        (p : Option Plan) (v : Option Review) (diff : String) {w w' : W} {cs : List Call}
        → Calls (fx.show_for_approval p v diff w) cs w'
        → Calls w (shows ∷ cs) w'
    written :
        (dir : String) (file : String) {w w' : W} {cs : List Call}
        → Calls (fx.write_ledger dir file w).1 cs w'
        → Calls w (writes ∷ cs) w'

  pub Calls-append :
      {w w' w'' : W} {cs ds : List Call} → Calls w cs w' → Calls w' ds w'' → Calls w (cs ++ ds) w''
  Calls-append done k = k
  Calls-append (implemented d p r n c) k = implemented d p r n (Calls-append c k)
  Calls-append (tested d c) k = tested d (Calls-append c k)
  Calls-append (planned i d c) k = planned i d (Calls-append c k)
  Calls-append (reviewed i p f d c) k = reviewed i p f d (Calls-append c k)
  Calls-append (published x d c) k = published x d (Calls-append c k)
  Calls-append (asked_of q c) k = asked_of q (Calls-append c k)
  Calls-append (said t c) k = said t (Calls-append c k)
  Calls-append (shown p v f c) k = shown p v f (Calls-append c k)
  Calls-append (written d f c) k = written d f (Calls-append c k)

-- How many calls run the worker.
abbrev pub worker_calls : List Call → ℕ
worker_calls [] = 0
worker_calls (implements d p r n ∷ cs) = worker_calls cs + 1
worker_calls (_ ∷ cs) = worker_calls cs

pub worker_calls-append :
    (cs ds : List Call) → worker_calls (cs ++ ds) ≡ worker_calls cs + worker_calls ds
worker_calls-append [] ds = omega arith
worker_calls-append (implements d p r n ∷ cs) ds = omega (arith, worker_calls-append cs ds)
worker_calls-append (_ ∷ cs) ds = worker_calls-append cs ds

abbrev pub is_publish : Call → Bool
is_publish (publishes ctx dir) = true
is_publish _ = false

abbrev pub says_yes : Attempt String → Bool
says_yes (returned a) = is_yes a
says_yes (threw m) = false

-- No publish comes before a yes to the final question; nothing is asked of what comes after.
abbrev pub AwaitsYes : (Question → Bool) → List Call → Type 0
AwaitsYes q [] = Unit
AwaitsYes q (publishes ctx dir ∷ cs) = ⊥
AwaitsYes q (asks x a ∷ cs) =
    if q x then (if says_yes a then Unit else AwaitsYes q cs) else AwaitsYes q cs
AwaitsYes q (_ ∷ cs) = AwaitsYes q cs

abbrev pub is_confirm : Question → Bool
is_confirm confirm_publish = true
is_confirm _ = false

abbrev pub is_acknowledge : Question → Bool
is_acknowledge acknowledge_tests = true
is_acknowledge _ = false

if_Unit : (b : Bool) {P : Type 0} → P → if b then Unit else P
if_Unit true p = tt
if_Unit false p = p

if_same : (b : Bool) {P Q : Type 0} → P → Q → if b then P else Q
if_same true p q = p
if_same false p q = q

-- A further question before the calls does no harm.
pub AwaitsYes-asks :
    (q : Question → Bool) (x : Question) (a : Attempt String) (cs : List Call)
    → AwaitsYes q cs
    → AwaitsYes q (asks x a ∷ cs)
AwaitsYes-asks q x a cs h = if_same (q x) (if_Unit (says_yes a) h) h

-- After a yes to the question anything may follow.
pub AwaitsYes-said :
    (q : Question → Bool) (x : Question) (a : Attempt String) (cs : List Call)
    → q x ≡ true
    → says_yes a ≡ true
    → AwaitsYes q (asks x a ∷ cs)
AwaitsYes-said q x a cs h k = rw (h, k) tt
