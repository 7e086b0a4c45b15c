-- ===== src/Tests/Upgrades.antt =====
-- internal/upgrade on a concrete machine.
use vmkit_agent.Base.{
  String, ◌<>◌, true, false, [], ◌∷◌, ◌≡◌, refl, split_at, fields, scan_uint, trim_space, contains,
  join_path, clean,
}
use vmkit_agent.Types.{completed, failed}
use vmkit_agent.Types.Sequence.{IsRun, first_failed, Tells}
use vmkit_agent.Host.{Host, ok}
use vmkit_agent.Tests.Machines.{server, but}
use vmkit_agent.Stage.{◌>>=◌, ◌>>◌, return, ask, pass, within, stage, or_else, optional, set_extra}
use vmkit_agent.Backup.Tools.{get_free_disk_space}
use vmkit_agent.Compose.{up}
use vmkit_agent.Health.Round.{
  default_check_config, run_health_checks, check_services, check_container_states, check_postgres,
  check_kong_gateway, check_studio, gathered,
}
use vmkit_agent.Health.{check_all, attempts, final_check}
use vmkit_agent.Upgrade.Versions.{compare_versions, validate_version_upgrade}
use vmkit_agent.Upgrade.Steps.{
  UpgradeConfig, rollback_upgrade, restart, restore_copy, write_given, save_configuration,
  check_health, check_again, check_space, validate,
}
use vmkit_agent.Upgrade.{
  UpgradeResult, upgrade, upgrade_flow, given_stage, registry_stage, restart_stages, backup_stage,
}
use vmkit_agent.Upgrade.Laws.{upgrade_plan, upgrade-Tells}
use vmkit_agent.Upgrade.Rollback.{restored, upgrade-restored}

abbrev as_is : String → String
as_is text = text

abbrev newer : UpgradeConfig
newer = record {
  instance_id = "i1";
  subdomain = "acme";
  base_dir = "";
  current_version = "1.23.0";
  target_version = "1.24.0";
  backup_before_upgrade = false;
  rollback_on_failure = true;
  backup_upload_url = "";
  storage_upload_url = "";
  compose_content = "services:\n";
  env_content = "";
}

upgrade-Tells_example :
    (r : UpgradeResult) × (message : String) × (note : String) × ((upgrade as_is newer server []).0
      ≡ ok r)
    × (r.error_message ≡ message <> note)
    × IsRun (upgrade_plan newer) r.steps
    × Tells r.success r.failed_step message (first_failed r.steps)
upgrade-Tells_example = upgrade-Tells newer as_is server

-- The machine on which the containers do not start
abbrev broken : Host
broken = but server ("sudo" ∷ "docker" ∷ "compose" ∷ "up" ∷ "-d" ∷ "--remove-orphans" ∷ [])

abbrev not_started : String
not_started =
    "Failed to start containers with new images: failed to start containers: exit status 1\nStdout: \nStderr: "

abbrev upgrade_failed : UpgradeResult
upgrade_failed = record {
  success = false;
  instance_id = "i1";
  upgraded_from = "";
  upgraded_to = "";
  steps =
      record {
        name = "pre_upgrade_validation";
        status = completed;
        message = "Validation passed: 1.23.0 -> 1.24.0";
      }
      ∷ record {
        name = "backup_configuration";
        status = completed;
        message = "Configuration backed up";
      }
      ∷ record {
        name = "update_configuration";
        status = completed;
        message = "Configuration updated from backend-rendered templates";
      }
      ∷ record { name = "rolling_restart"; status = failed; message = not_started }
      ∷ [];
  rollback_applied = true;
  backup_id = "";
  error_message = not_started;
  failed_step = "rolling_restart";
}

not_upgraded : (upgrade as_is newer broken []).0 ≡ ok upgrade_failed
unfolding upgrade upgrade_flow given_stage registry_stage restart_stages backup_stage ◌>>=◌ ◌>>◌
    stage ask within pass optional return or_else set_extra rollback_upgrade restart up restore_copy
    write_given save_configuration check_health check_again check_space validate
    validate_version_upgrade compare_versions get_free_disk_space check_all attempts final_check
    run_health_checks check_services check_container_states check_postgres check_kong_gateway
    check_studio gathered trim_space contains split_at fields scan_uint default_check_config
    join_path clean
not_upgraded = refl

upgrade-restored_example : restored newer (upgrade as_is newer broken []).1 ≡ true
upgrade-restored_example = upgrade-restored newer broken refl as_is not_upgraded refl
