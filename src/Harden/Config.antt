-- ===== src/Harden/Config.antt =====
-- The configuration, the result and the paths of internal/harden/harden.go.
use vmkit_agent.Base.{String, Bool, List, [], ◌∷◌, ◌++◌, ℤ, false}
use vmkit_agent.Types.{StepResult, completed, failed}

pub record HardenConfig : Type 0 where
  pub vm_user : String
  pub ssh_port : ℤ
  pub ssh_public_key : String
  pub extra_authorized_keys : List String
  pub enable_firewall : Bool
  pub enable_fail2ban : Bool
  pub enable_auto_updates : Bool

pub record HardenResult : Type 0 where
  pub success : Bool
  pub steps : List StepResult
  pub error_message : String
  pub failed_step : String
  pub rollback_applied : Bool
  pub rollback_details : String

abbrev pub backup_dir : String
backup_dir = "/var/backups/supabyoi"

abbrev pub sshd_config_dir : String
sshd_config_dir = "/etc/ssh/sshd_config.d"

abbrev pub sshd_config_file : String
sshd_config_file = "/etc/ssh/sshd_config.d/supabyoi.conf"

abbrev pub rollback_script_path : String
rollback_script_path = "/usr/local/bin/supabyoi-rollback-hardening.sh"

abbrev pub jail_file : String
jail_file = "/etc/fail2ban/jail.d/supabyoi-sshd.conf"

abbrev pub empty_result : HardenResult
empty_result = record {
  success = false;
  steps = [];
  error_message = "";
  failed_step = "";
  rollback_applied = false;
  rollback_details = "";
}

-- What a step leaves in the result when it ends well, and when it does not.
abbrev pub complete_step : String → String → HardenResult → HardenResult
complete_step name message result = record result {
  steps = result.steps ++ record { name = name; status = completed; message = message } ∷ [];
}

abbrev pub fail_step : String → String → HardenResult → HardenResult
fail_step name e result = record result {
  steps = result.steps ++ record { name = name; status = failed; message = e } ∷ [];
  error_message = e;
  failed_step = name;
}
