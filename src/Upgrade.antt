-- ===== src/Upgrade.antt =====
-- internal/upgrade/upgrade.go: an instance is brought to a newer version, and back if that fails.
pub mod Versions
pub mod Images
pub mod Steps
pub mod Laws
pub mod Quiet
pub mod Rollback
use vmkit_agent.Base.{
  String, ◌<>◌, Bool, true, false, not, ◌&&◌, Option, none, some, List, [], ◌∷◌, is_empty,
  join_path, if◌then◌else◌,
}
use vmkit_agent.Types.{StepResult}
use vmkit_agent.Host.{remove, sleep, Host, Trace, Outcome, ok, M, when}
use vmkit_agent.Stage.{
  Flow, Progress, ◌>>=◌, ◌>>◌, return, ask, set_extra, pass, within, stage, or_else, optional,
  begin, succeeds,
}
use vmkit_agent.Upgrade.Versions.{VersionInfo}
use vmkit_agent.Upgrade.Steps.{
  UpgradeConfig, dir_of, compose_of, saved_of, validate, save_backup, save_configuration,
  write_given, registered, pull_and_update, restore_copy, restart, rollback_upgrade, check_again,
}

pub record UpgradeResult : Type 0 where
  pub success : Bool
  pub instance_id : String
  pub upgraded_from : String
  pub upgraded_to : String
  pub steps : List StepResult
  pub rollback_applied : Bool
  pub backup_id : String
  pub error_message : String
  pub failed_step : String

-- What the result gets on the way; `note` is what is added to its message at the end.
pub record Extra : Type 0 where
  pub backup_id : String
  pub rollback_applied : Bool
  pub note : String

abbrev pub nothing : Extra
nothing = record { backup_id = ""; rollback_applied = false; note = "" }

abbrev pub backs_up : UpgradeConfig → Bool
backs_up cfg = cfg.backup_before_upgrade && not (is_empty cfg.backup_upload_url)

abbrev rolled_back : UpgradeConfig → String → Extra → Extra
rolled_back cfg note x =
    if cfg.rollback_on_failure then record x { rollback_applied = true; note = note } else x

abbrev pub try_rollback : UpgradeConfig → M (Unit {0})
try_rollback cfg = when cfg.rollback_on_failure (rollback_upgrade cfg)

unfoldable pub given_stage : UpgradeConfig → Flow Extra (Unit {0})
given_stage cfg = do
  or_else (within "update_configuration" (write_given cfg)) (λ x. x) (restore_copy cfg)
  pass "update_configuration" "Configuration updated from backend-rendered templates"

unfoldable pub registry_stage : UpgradeConfig → Flow Extra (Unit {0})
registry_stage cfg = do
  info ← within "update_configuration" (registered cfg.target_version)
  or_else (within "update_configuration" (pull_and_update cfg info)) (λ x. x) (restore_copy cfg)
  pass "update_configuration" "Configuration updated via version registry"

unfoldable pub restart_stages : UpgradeConfig → Flow Extra (Unit {0})
restart_stages cfg = do
  or_else (within "rolling_restart" (restart cfg)) (rolled_back cfg "") (try_rollback cfg)
  pass "rolling_restart" "Containers restarted with new versions"
  ask (sleep 10000)
  pass "stabilization_wait" "Containers stabilized"
  or_else (within "post_upgrade_health_check" (check_again cfg))
      (rolled_back cfg " - rollback applied") (try_rollback cfg)
  pass "post_upgrade_health_check" "Health check passed"
  ask (remove (saved_of cfg))
  return tt

-- SHA-256 as a hexadecimal text
module _ (digest : String → String) where
  unfoldable pub backup_stage : UpgradeConfig → Flow Extra (Unit {0})
  backup_stage cfg = do
    id ← within "create_backup" (save_backup digest cfg)
    set_extra (λ x. record x { backup_id = id })
    pass "create_backup" ("Backup created: " <> id)

  unfoldable pub upgrade_flow : UpgradeConfig → Flow Extra (Unit {0})
  upgrade_flow cfg = do
    stage "pre_upgrade_validation"
        (λ _. "Validation passed: " <> cfg.current_version <> " -> " <> cfg.target_version)
        (validate cfg)
    optional (backs_up cfg) (backup_stage cfg)
    stage "backup_configuration" (λ _. "Configuration backed up") (save_configuration cfg)
    if not (is_empty cfg.compose_content) then given_stage cfg else registry_stage cfg
    restart_stages cfg

  unfoldable pub upgrade : UpgradeConfig → M UpgradeResult
  unfolding upgrade_flow
  upgrade cfg host w =
      let (o, p, w') = upgrade_flow cfg host (begin nothing) w in
      (
        ok (record {
          success = succeeds o;
          instance_id = cfg.instance_id;
          upgraded_from = if succeeds o then cfg.current_version else "";
          upgraded_to = if succeeds o then cfg.target_version else "";
          steps = p.steps;
          rollback_applied = p.extra.rollback_applied;
          backup_id = p.extra.backup_id;
          error_message = p.error_message <> p.extra.note;
          failed_step = p.failed_step;
        }),
        w',
      )
