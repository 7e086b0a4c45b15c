-- ===== src/Harden/Run.antt =====
-- `Harden`: the nine steps in order, each with its place in the result.
use vmkit_agent.Base.{String, ◌<>◌, Bool, true, false, [], ◌∷◌, ◌++◌, show_int}
use vmkit_agent.Types.{completed, failed}
use vmkit_agent.Host.{Outcome, ok, err, M, ◌>>=◌, return, attempt}
use vmkit_agent.Harden.Config.{
  HardenConfig, HardenResult, empty_result, complete_step, fail_step, rollback_script_path,
}
use vmkit_agent.Harden.System.{preflight_checks, create_backups, configure_user}
use vmkit_agent.Harden.Ssh.{configure_ssh, restart_and_test_ssh}
use vmkit_agent.Harden.Firewall.{
  configure_firewall, install_fail2ban, enable_auto_updates, create_rollback_script,
}
use vmkit_agent.Harden.Rollback.{rollback}

-- What follows a step: the next steps, or the result with the step's error, rolled back if
-- `undo` says so.
unfoldable pub conclude :
    {A : Type 0}
    → String
    → Bool
    → String
    → (A → HardenResult → M HardenResult)
    → HardenResult
    → Outcome A
    → M HardenResult
conclude name undo note next result (ok a) = next a (complete_step name note result)
conclude name true note next result (err e) = rollback (fail_step name e result)
conclude name false note next result (err e) = return (fail_step name e result)

unfoldable pub step :
    {A : Type 0}
    → String
    → Bool
    → M A
    → String
    → (A → HardenResult → M HardenResult)
    → HardenResult
    → M HardenResult
step name undo body note next result = do r ← attempt body; conclude name undo note next result r

-- Step 9. A failure is entered once as failed and once more, as a warning, as completed.
unfoldable pub script_result : HardenResult → Outcome (Unit {0}) → HardenResult
script_result result (ok _) =
    complete_step "Create Emergency Rollback Script"
      ("Emergency rollback script created at " <> rollback_script_path) result
script_result result (err e) =
    let name : String = "Create Emergency Rollback Script" in
    record result {
      steps =
          (result.steps ++ record { name = name; status = failed; message = e } ∷ [])
          ++ record {
            name = name;
            status = completed;
            message = "Warning: Could not create rollback script: " <> e;
          }
            ∷ [];
    }

unfoldable pub write_script : HardenConfig → HardenResult → M HardenResult
write_script cfg result = do
  r ← attempt (create_rollback_script cfg)
  return (record (script_result result r) { success = true })

-- A step behind a switch of the configuration
unfoldable pub optional :
    Bool
    → (HardenResult → M HardenResult)
    → (HardenResult → M HardenResult)
    → HardenResult
    → M HardenResult
optional true with_step without result = with_step result
optional false with_step without result = without result

unfoldable pub auto_update_step : HardenConfig → HardenResult → M HardenResult
auto_update_step cfg =
    optional cfg.enable_auto_updates
      (step "Enable Automatic Security Updates" false enable_auto_updates
        "Automatic security updates enabled" (λ _. write_script cfg))
      (write_script cfg)

unfoldable pub fail2ban_step : HardenConfig → HardenResult → M HardenResult
fail2ban_step cfg =
    optional cfg.enable_fail2ban
      (step "Install and Configure Fail2Ban" false (install_fail2ban cfg)
        "Fail2Ban installed and configured" (λ _. auto_update_step cfg))
      (auto_update_step cfg)

unfoldable pub firewall_step : HardenConfig → HardenResult → M HardenResult
firewall_step cfg =
    optional cfg.enable_firewall
      (step "Configure UFW Firewall" true (configure_firewall cfg)
        "UFW firewall configured and enabled" (λ _. fail2ban_step cfg))
      (fail2ban_step cfg)

unfoldable pub restart_step : HardenConfig → HardenResult → M HardenResult
restart_step cfg =
    step "Restart SSH and Validate Connection" true (restart_and_test_ssh cfg)
      "SSH service restarted and connection verified" (λ _. firewall_step cfg)

unfoldable pub ssh_step : HardenConfig → HardenResult → M HardenResult
ssh_step cfg =
    step "Configure SSH Security" true (configure_ssh cfg)
      ("SSH configured on port " <> show_int cfg.ssh_port <> " with key-based auth only")
      (λ _. restart_step cfg)

unfoldable pub user_step : HardenConfig → HardenResult → M HardenResult
user_step cfg =
    step "Configure System User" false (configure_user cfg)
      ("User " <> cfg.vm_user <> " configured with sudo access") (λ _. ssh_step cfg)

unfoldable pub backup_step : HardenConfig → HardenResult → M HardenResult
backup_step cfg =
    step "Create Configuration Backups" false create_backups
      "Configuration files backed up successfully" (λ _. user_step cfg)

unfoldable pub harden : HardenConfig → M HardenResult
harden cfg =
    step "Pre-flight Safety Checks" false (preflight_checks cfg) "All safety checks passed"
      backup_step empty_result
