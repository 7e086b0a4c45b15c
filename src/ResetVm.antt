-- ===== src/ResetVm.antt =====
-- internal/resetvm/resetvm.go: a machine is put back to the state it had after hardening. Every step
-- is run, whether the ones before it failed or not.
pub mod Steps
pub mod Report
pub mod Firewall
use vmkit_agent.Base.{
  ℕ, String, ◌<>◌, Bool, true, false, List, [], ◌∷◌, ◌++◌, is_empty, length, itoa, ℤ, pos,
  if◌then◌else◌,
}
use vmkit_agent.Types.{Status, StepResult, in_progress, completed, failed}
use vmkit_agent.Host.{Outcome, ok, err, M, ◌>>=◌, ◌>>◌, return, attempt}
use vmkit_agent.ResetVm.Steps.{
  list_instance_subdirs, purge_listed, prune_docker, reset_ufw, cleanup_stale_configs,
}

pub record ResetVmConfig : Type 0 where
  pub base_dir : String
  pub allowed_ports : List ℤ

pub record ResetVmResult : Type 0 where
  pub success : Bool
  pub steps : List StepResult
  pub purged_instances : List String
  pub removed_ufw_rules : List ℕ
  pub removed_config_files : List String
  pub error_message : String
  pub failed_step : String

abbrev pub status_of : {A : Type 0} → Outcome A → Status
status_of (ok a) = completed
status_of (err e) = failed

abbrev message_of : {A : Type 0} → Outcome A → String
message_of (ok a) = "Successfully completed"
message_of (err e) = "Failed: " <> e

-- `runStep`, on what the step came to
abbrev pub step_of : {A : Type 0} → String → Outcome A → StepResult
step_of name r = record { name = name; status = status_of r; message = message_of r }

-- The note takes the message's place if the step completed.
abbrev noted : Status → String → String → String
noted completed note message = note
noted failed note message = message
noted in_progress note message = message

abbrev pub with_note : StepResult → String → StepResult
with_note s note = record s { message = noted s.status note s.message }

-- What the closure of a step leaves in its variable: nothing after an error.
abbrev pub left_by : {A : Type 0} → Outcome (List A) → List A
left_by (ok xs) = xs
left_by (err e) = []

-- `recordFailure`
abbrev pub first_failure : Status → StepResult → ResetVmResult → ResetVmResult
first_failure failed s r = record r {
  success = false;
  failed_step = if is_empty r.failed_step then s.name else r.failed_step;
  error_message = if is_empty r.failed_step then s.message else r.error_message;
}
first_failure completed s r = r
first_failure in_progress s r = r

abbrev pub record_failure : ResetVmResult → StepResult → ResetVmResult
record_failure r s = first_failure s.status s r

-- A step is appended and its failure recorded.
abbrev pub enter : ResetVmResult → StepResult → ResetVmResult
enter r s = record_failure (record r { steps = r.steps ++ s ∷ [] }) s

-- The message of the first step: a base directory without instances hides an error.
abbrev purge_text : List String → StepResult → String
purge_text [] s = "no instance dirs found"
purge_text (sub ∷ subs) s =
    noted s.status ("purged " <> itoa (length (sub ∷ subs)) <> " instance(s)") s.message

abbrev pub purge_message : List String → StepResult → StepResult
purge_message subs s = record s { message = purge_text subs s }

abbrev pub allowed_of : List ℤ → List ℤ
allowed_of [] = pos 22 ∷ pos 80 ∷ pos 443 ∷ []
allowed_of (p ∷ ps) = p ∷ ps

abbrev pub base_of : ResetVmConfig → String
base_of cfg = if is_empty cfg.base_dir then "/opt/supabase" else cfg.base_dir

unfoldable pub reset : ResetVmConfig → M ResetVmResult
reset cfg = do
  listed ← attempt (list_instance_subdirs (base_of cfg))
  purged ← attempt (purge_listed (base_of cfg) listed)
  let r₁ : ResetVmResult =
      enter
        (record {
          success = true;
          steps = [];
          purged_instances = left_by listed;
          removed_ufw_rules = [];
          removed_config_files = [];
          error_message = "";
          failed_step = "";
        })
        (purge_message (left_by listed) (step_of "purge_instances" purged))
  pruned ← attempt prune_docker
  let r₂ = enter r₁ (step_of "prune_docker" pruned)
  ufw ← attempt (reset_ufw (allowed_of cfg.allowed_ports))
  let r₃ =
      enter (record r₂ { removed_ufw_rules = left_by ufw })
        (with_note (step_of "reset_ufw" ufw)
          ("deleted " <> itoa (length (left_by ufw)) <> " rule(s)"))
  configs ← attempt cleanup_stale_configs
  return (
      enter (record r₃ { removed_config_files = left_by configs })
        (with_note (step_of "cleanup_configs" configs)
          ("removed " <> itoa (length (left_by configs)) <> " file(s)")))
