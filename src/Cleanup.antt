-- ===== src/Cleanup.antt =====
-- internal/cleanup/cleanup.go: what the program put on a machine is taken away, in steps that depend
-- on the level, up to the first that fails.
pub mod Plan
pub mod Laws
use vmkit_agent.Base.{
  String, ◌<>◌, Bool, true, false, not, ◌&&◌, ◌||◌, List, [], ◌∷◌, ◌++◌, ◌==ₛ◌, contains, is_empty,
  ℤ, pos, int_eq, if◌then◌else◌,
}
use vmkit_agent.Types.{StepResult, in_progress, completed, failed}
use vmkit_agent.Host.{Call, Reply, M, ◌>>=◌, ◌>>◌, return, call, succeeded, error_text, cmd}
use vmkit_agent.Cleanup.Plan.{CleanupConfig, CleanupStep, get_cleanup_steps, port_of, user_of}

pub record CleanupResult : Type 0 where
  pub success : Bool
  pub level : String
  pub steps : List StepResult
  pub error_message : String
  pub failed_step : String
  pub restored_ssh_port : ℤ
  pub restored_ssh_user : String

unfoldable pub removes_path : String → Bool
removes_path name =
    name ==ₛ "Remove Supabase instance directories"
    || name ==ₛ "Remove Supabyoi agent directory"
    || name ==ₛ "Remove Nginx Supabase site configurations"
    || name ==ₛ "Remove ACME challenge directory"
    || name ==ₛ "Remove fail2ban Supabyoi configurations"
    || name ==ₛ "Remove Supabyoi SSH configuration"

user_gone : String → Bool
user_gone output =
    contains output "does not exist"
    || contains output "no such user"
    || contains output "currently used by process"
    || contains output "currently logged in"

service_gone : String → Bool
service_gone output = contains output "could not be found" || contains output "not loaded"

-- `isIgnorableError` of an error, by the step's name and the output
unfoldable pub is_ignorable : String → String → Bool
unfolding removes_path user_gone service_gone contains
is_ignorable name output =
    removes_path name
    || (name ==ₛ "Remove supabyoi user" && user_gone output)
    || ((name ==ₛ "Restart fail2ban to apply changes"
          || name ==ₛ "Reload Nginx to remove site configurations")
        && service_gone output)

-- The step is taken as done: its command succeeded, or its error is ignored.
abbrev pub passes : CleanupStep → Reply → Bool
passes s r = succeeded r || is_ignorable s.name r.output

abbrev pub step_call : CleanupStep → Call
step_call s = cmd 0 (s.command ∷ s.args)

unfoldable pub step_result : CleanupStep → Reply → StepResult
step_result s r =
    if passes s r
    then (record { name = s.name; status = completed; message = "Successfully completed" })
    else (record {
      name = s.name;
      status = failed;
      message = "Command failed: " <> error_text r <> ". Output: " <> r.output;
    })

unfoldable pub execute_step : CleanupStep → M StepResult
unfolding step_result
execute_step s = do r ← call (step_call s); return (step_result s r)

unfoldable pub record_step :
    CleanupResult → StepResult → (CleanupResult → M CleanupResult) → M CleanupResult
record_step result r rest =
    let added = record result { steps = result.steps ++ r ∷ [] } in
    elim r.status [
      | failed ↦
          return (record added { success = false; failed_step = r.name; error_message = r.message })
      | completed ↦ rest added
      | in_progress ↦ rest added
    ]

unfoldable pub execute_all : List CleanupStep → CleanupResult → M CleanupResult
execute_all [] result = return result
execute_all (s ∷ ss) result = do r ← execute_step s; record_step result r (execute_all ss)

-- The settings that a revert without an error has put back
abbrev pub restored : CleanupConfig → CleanupResult → CleanupResult
restored cfg r =
    if cfg.level ==ₛ "revert" && r.success
    then (record r { restored_ssh_port = port_of cfg; restored_ssh_user = user_of cfg })
    else r

unfoldable pub cleanup : CleanupConfig → M CleanupResult
cleanup cfg = do
  done ← execute_all (get_cleanup_steps cfg) (record {
    success = true;
    level = cfg.level;
    steps = [];
    error_message = "";
    failed_step = "";
    restored_ssh_port = pos 0;
    restored_ssh_user = "";
  })
  return (restored cfg done)
