-- ===== src/Stage.antt =====
-- Commands that run in named steps and return at the first step that fails: the form that
-- internal/backup, internal/upgrade and internal/enabletls share. A step of the source is put into
-- the list of the result as "in progress" and is overwritten before anything reads the list; here
-- it is added when its end is known.
pub mod Plan
pub mod Told
pub mod Safe
use vmkit_agent.Base.{String, Bool, true, false, Option, none, some, List, [], ◌∷◌, ◌++◌}
use vmkit_agent.Types.{StepResult, completed, failed}
use vmkit_agent.Host.{Call, Host, Trace, Outcome, ok, err, M, Reply}

-- What a command knows so far: the fields that every result has, and those of its own.
pub record Progress (X : Type 0) : Type 0 where
  pub steps : List StepResult
  pub error_message : String
  pub failed_step : String
  pub extra : X

-- `none` is a `return result` before the end.
abbrev pub Flow : Type 0 → Type 0 → Type 0
Flow X A = Host → Progress X → Trace → Option A × Progress X × Trace

abbrev pub continue :
    {X A B : Type 0}
    → Host
    → (A → Flow X B)
    → Option A
    → Progress X
    → Trace
    → Option B × Progress X × Trace
continue host f none p w = (none, p, w)
continue host f (some a) p w = f a host p w

infixl 5 ◌>>=◌ ◌>>◌
unfoldable pub ◌>>=◌ : {X A B : Type 0} → Flow X A → (A → Flow X B) → Flow X B
◌>>=◌ m f host p w = let (o, p', w') = m host p w in continue host f o p' w'

unfoldable pub ◌>>◌ : {X A B : Type 0} → Flow X A → Flow X B → Flow X B
unfolding ◌>>=◌
m >> k = m >>= λ _. k

unfoldable pub return : {X A : Type 0} → A → Flow X A
return a host p w = (some a, p, w)

-- A call between two steps, whose error does not matter.
unfoldable pub ask : {X : Type 0} → Call → Flow X Reply
ask c host p w = (some (host c w), p, c ∷ w)

unfoldable pub set_extra : {X : Type 0} → (X → X) → Flow X (Unit {0})
set_extra f host p w = (some tt, record p { extra = f p.extra }, w)

abbrev passed_as : {X : Type 0} → String → String → Progress X → Progress X
passed_as name note p = record p {
  steps = p.steps ++ record { name = name; status = completed; message = note } ∷ [];
}

abbrev failed_as : {X : Type 0} → String → String → Progress X → Progress X
failed_as name e p = record p {
  steps = p.steps ++ record { name = name; status = failed; message = e } ∷ [];
  error_message = e;
  failed_step = name;
}

-- `stepSuccess`
unfoldable pub pass : {X : Type 0} → String → String → Flow X (Unit {0})
pass name note host p w = (some tt, passed_as name note p, w)

abbrev pub settled :
    {X A : Type 0} → String → Outcome A → Progress X → Trace → Option A × Progress X × Trace
settled name (ok a) p w = (some a, p, w)
settled name (err e) p w = (none, failed_as name e p, w)

-- A part of a step; its error fails the step (`stepFail`).
unfoldable pub within : {X A : Type 0} → String → M A → Flow X A
within name m host p w = let (o, w') = m host w in settled name o p w'

unfoldable pub stage : {X A : Type 0} → String → (A → String) → M A → Flow X A
stage name note m = do a ← within name m; pass name (note a); return a

-- `defer` of a call
unfoldable pub deferred : {X A : Type 0} → Call → Flow X A → Flow X A
deferred c m host p w = let (o, p', w') = m host p w in (o, p', c ∷ w')

abbrev pub recovered :
    {X A : Type 0}
    → (X → X)
    → M (Unit {0})
    → Host
    → Option A
    → Progress X
    → Trace
    → Option A × Progress X × Trace
recovered f r host (some a) p w = (some a, p, w)
recovered f r host none p w = (none, record p { extra = f p.extra }, (r host w).1)

-- What is still done when a part has failed.
unfoldable pub or_else : {X A : Type 0} → Flow X A → (X → X) → M (Unit {0}) → Flow X A
or_else m f r host p w = let (o, p', w') = m host p w in recovered f r host o p' w'

unfoldable pub optional : {X : Type 0} → Bool → Flow X (Unit {0}) → Flow X (Unit {0})
unfolding return
optional true m = m
optional false m = return tt

abbrev pub begin : {X : Type 0} → X → Progress X
begin x = record { steps = []; error_message = ""; failed_step = ""; extra = x }

-- The flow came to its end.
abbrev pub succeeds : {A : Type 0} → Option A → Bool
succeeds none = false
succeeds (some a) = true
