-- ===== src/Broker/Handler/Checks.antt =====
-- The chained checks of broker/src/handler.ts: when a chain is cleared, and with what it stops.
use muti_repo_workspace.Prelude.{
  String, Bool, true, false, Option, none, some, ◌≡◌, ◌≢◌, refl, arith, eq_iff, not, str_eq,
}
use muti_repo_workspace.Spine.Effects.{Attempt, returned}
use muti_repo_workspace.Broker.Handler.{
  PublishErrorCode, push_failed, pr_failed, PublishResponse, published, refused, Policy, Checked,
  stopped, cleared, ◌>>=◌, ◌>>◌, guard, require, require_text,
}
use muti_repo_workspace.Broker.Handler.Publish.{loaded_policy, trusted, is_clean}

-- The answers that only step 10 gives.
abbrev pub is_push_code : PublishErrorCode → Bool
is_push_code push_failed = true
is_push_code pr_failed = true
is_push_code _ = false

abbrev pub is_pushed : PublishResponse → Bool
is_pushed (published sha branch url) = true
is_pushed (refused code error sha) = is_push_code code

-- The chain does not stop with an answer of step 10.
abbrev pub Unpushed : {A : Type 0} → Checked A → Type 0
Unpushed c = (r : PublishResponse) → c ≡ stopped r → is_pushed r ≡ false

module _ {A B : Type 0} where
  pub bind-Unpushed :
      (c : Checked A) (f : A → Checked B)
      → Unpushed c
      → ((a : A) → Unpushed (f a))
      → Unpushed (c >>= f)
  unfolding ◌>>=◌
  bind-Unpushed (stopped r') f first rest r out = first r (ground arith)
  bind-Unpushed (cleared a) f first rest r out = rest a r out

  pub then-Unpushed : (c : Checked A) (d : Checked B) → Unpushed c → Unpushed d → Unpushed (c >> d)
  unfolding ◌>>◌
  then-Unpushed (stopped r') d first rest r out = first r (ground arith)
  then-Unpushed (cleared a) d first rest r out = rest r out

  pub bind-cleared :
      (c : Checked A) (f : A → Checked B) (b : B)
      → c >>= f ≡ cleared b
      → (a : A) × (c ≡ cleared a) × (f a ≡ cleared b)
  unfolding ◌>>=◌
  bind-cleared (stopped r) f b out = cc
  bind-cleared (cleared a) f b out = (a, refl, out)

  pub then-cleared :
      (c : Checked A) (d : Checked B) (b : B)
      → c >> d ≡ cleared b
      → ((a : A) × (c ≡ cleared a)) × (d ≡ cleared b)
  unfolding ◌>>◌
  then-cleared (stopped r) d b out = cc
  then-cleared (cleared a) d b out = ((a, refl), out)

pub require-Unpushed :
    {A : Type 0} (o : Option A) (r : PublishResponse) → is_pushed r ≡ false → Unpushed (require o r)
unfolding require
require-Unpushed o r quiet r' out = ground arith

pub require-cleared :
    {A : Type 0} (o : Option A) (r : PublishResponse) (a : A) → require o r ≡ cleared a → o ≡ some a
unfolding require
require-cleared o r a out = ground arith

pub guard-Unpushed : (b : Bool) (r : PublishResponse) → is_pushed r ≡ false → Unpushed (guard b r)
unfolding guard
guard-Unpushed b r quiet r' out = ground arith

pub guard-cleared : (b : Bool) (r : PublishResponse) (u : Unit) → guard b r ≡ cleared u → b ≡ true
unfolding guard
guard-cleared b r u out = ground arith

pub require_text-Unpushed :
    (o : Option String) (r : PublishResponse) → is_pushed r ≡ false → Unpushed (require_text o r)
unfolding require_text
require_text-Unpushed o r quiet r' out = ground arith

pub require_text-cleared :
    (o : Option String) (r : PublishResponse) (s : String)
    → require_text o r ≡ cleared s
    → o ≡ some s
unfolding require_text
require_text-cleared o r s out = ground arith

pub trusted-Unpushed : (o : Option String) → Unpushed (trusted o)
unfolding trusted
trusted-Unpushed o r out = ground arith

pub trusted-cleared : (o : Option String) (u : Unit) → trusted o ≡ cleared u → o ≡ none
unfolding trusted
trusted-cleared o u out = ground arith

pub is_clean-Unpushed : (o : Option Bool) → Unpushed (is_clean o)
unfolding is_clean
is_clean-Unpushed none r out = ground arith
is_clean-Unpushed (some true) r out = ground arith
is_clean-Unpushed (some false) r out = cc

pub is_clean-cleared : (o : Option Bool) (u : Unit) → is_clean o ≡ cleared u → o ≡ some false
unfolding is_clean
is_clean-cleared none u out = cc
is_clean-cleared (some true) u out = cc
is_clean-cleared (some false) u out = refl

pub loaded_policy-Unpushed : (a : Attempt Policy) → Unpushed (loaded_policy a)
unfolding loaded_policy
loaded_policy-Unpushed a r out = ground arith

pub loaded_policy-cleared :
    (a : Attempt Policy) (cfg : Policy) → loaded_policy a ≡ cleared cfg → a ≡ returned cfg
unfolding loaded_policy
loaded_policy-cleared a cfg out = ground arith

pub cleared-Unpushed : {A : Type 0} (a : A) → Unpushed (cleared a)
cleared-Unpushed a r out = cc

pub guard-unset :
    (b : Bool) (r : PublishResponse) (u : Unit) → guard (not b) r ≡ cleared u → b ≡ false
guard-unset true r u out = ground (arith, guard-cleared false r u out)
guard-unset false r u out = refl

pub guard-same :
    (a b : String) (r : PublishResponse) (u : Unit) → guard (str_eq a b) r ≡ cleared u → a ≡ b
guard-same a b r u out = let same = guard-cleared (str_eq a b) r u out in ground (arith, eq_iff a b)

pub cleared-injective : {A : Type 0} (a b : A) → cleared a ≡ cleared b → a ≡ b
cleared-injective a b h = ground arith

pub str_differs : (a b : String) → str_eq a b ≡ false → a ≢ b
str_differs a b h same = ground (arith, eq_iff a b)
