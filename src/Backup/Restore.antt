-- ===== src/Backup/Restore.antt =====
-- `Restore` of internal/backup/backup.go.
pub mod Steps
pub mod Laws
pub mod Order
use vmkit_agent.Base.{
  String, ◌<>◌, Bool, true, false, not, ◌&&◌, List, [], ◌∷◌, is_empty, join_path, itoa,
  if◌then◌else◌,
}
use vmkit_agent.Types.{StepResult}
use vmkit_agent.Host.{remove, unix_time, Host, Trace, Outcome, ok, M}
use vmkit_agent.Stage.{
  Flow, Progress, ◌>>=◌, ◌>>◌, return, ask, pass, within, stage, deferred, optional, begin,
  succeeds,
}
use vmkit_agent.Backup.Restore.Steps.{
  RestoreConfig, dir_of, validate, download, verify_checksum, stop_instance, restore_database,
  fix_permissions, storage_note, restart_instance, check_health,
}

pub record RestoreResult : Type 0 where
  pub success : Bool
  pub instance_id : String
  pub steps : List StepResult
  pub error_message : String
  pub failed_step : String

abbrev pub checks_sum : RestoreConfig → Bool
checks_sum cfg = cfg.verify_checksum && not (is_empty cfg.expected_checksum)

abbrev temp_file : String → String → String → String
temp_file subdomain kind time = join_path "/tmp" (subdomain <> kind <> time)

unfoldable pub finish : String → Flow (Unit {0}) (Unit {0})
finish dir = do
  stage "restart_instance" (λ _. "Instance restarted") (restart_instance dir)
  stage "health_check" (λ _. "Health check passed") (check_health dir)

-- The file of the storage is removed when `Restore` returns.
unfoldable pub restore_storage : RestoreConfig → String → Flow (Unit {0}) (Unit {0})
restore_storage cfg dir = do
  now ← ask unix_time
  let file = temp_file cfg.subdomain "_storage_restore_" (itoa now.number <> ".tar.gz")
  deferred (remove file) (do
    stage "restore_storage" (λ note. note) (storage_note cfg.storage_download_url dir file)
    finish dir)

-- SHA-256 as a hexadecimal text
module _ (digest : String → String) where
  unfoldable pub restore_from : RestoreConfig → String → String → Flow (Unit {0}) (Unit {0})
  restore_from cfg dir file = do
    stage "download_backup" (λ _. "Backup downloaded successfully") (download cfg.download_url file)
    optional (checks_sum cfg) (
        stage "verify_checksum" (λ _. "Checksum verified")
          (verify_checksum digest cfg.expected_checksum file))
    optional cfg.stop_instance (stage "stop_instance" (λ _. "Instance stopped") (stop_instance dir))
    id ←
        stage "restore_database" (λ _. "Database restored successfully") (restore_database dir file)
    stage "fix_auth_permissions" (λ _. "Auth schema grants and RLS reset") (fix_permissions id)
    if not (is_empty cfg.storage_download_url) then restore_storage cfg dir else finish dir

  unfoldable pub restore_flow : RestoreConfig → Flow (Unit {0}) (Unit {0})
  restore_flow cfg = do
    let dir = dir_of cfg
    stage "validate_instance" (λ _. "Instance validated") (validate dir)
    now ← ask unix_time
    let file = temp_file cfg.subdomain "_restore_" (itoa now.number <> ".sql.gz")
    deferred (remove file) (restore_from cfg dir file)

  unfoldable pub restore : RestoreConfig → M RestoreResult
  unfolding restore_flow
  restore cfg host w =
      let (o, p, w') = restore_flow cfg host (begin tt) w in
      (
        ok (record {
          success = succeeds o;
          instance_id = cfg.instance_id;
          steps = p.steps;
          error_message = p.error_message;
          failed_step = p.failed_step;
        }),
        w',
      )
