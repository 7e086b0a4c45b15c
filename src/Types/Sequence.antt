-- ===== src/Types/Sequence.antt =====
-- The steps of a command that ends at the first step that fails.
use vmkit_agent.Base.{Bool, true, false, ◌≡◌, String, Option, none, some, List, [], ◌∷◌}
use vmkit_agent.Types.{StepResult, in_progress, completed, failed}

-- The steps with these names, in their order: all completed, or a part that ends with the one that
-- failed.
pub data IsRun : List String → List StepResult → Type 0 where
  finished : IsRun [] []
  stopped :
      {name message : String} {names : List String}
      → IsRun (name ∷ names) (record { name = name; status = failed; message = message } ∷ [])
  passed :
      {name message : String} {names : List String} {steps : List StepResult}
      → IsRun names steps
      → IsRun (name ∷ names) (record { name = name; status = completed; message = message } ∷ steps)

abbrev pub first_failed : List StepResult → Option StepResult
first_failed [] = none
first_failed (s ∷ ss) = elim s.status [
  | failed ↦ some s
  | completed ↦ first_failed ss
  | in_progress ↦ first_failed ss
]

-- The end of a result that began as a success without a message.
abbrev pub Tells : Bool → String → String → Option StepResult → Type 0
Tells success step message none = (success ≡ true) × (step ≡ "") × (message ≡ "")
Tells success step message (some s) = (success ≡ false) × (step ≡ s.name) × (message ≡ s.message)
