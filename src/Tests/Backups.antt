-- ===== src/Tests/Backups.antt =====
-- internal/backup on a concrete machine.
use vmkit_agent.Base.{String, true, false, [], ◌≡◌, refl, trim_space, contains}
use vmkit_agent.Types.Sequence.{IsRun, first_failed, Tells}
use vmkit_agent.Host.{ok}
use vmkit_agent.Host.Log.{guarded, made}
use vmkit_agent.Tests.Machines.{server}
use vmkit_agent.Stage.{◌>>=◌, ◌>>◌, return, ask, pass, within, stage, deferred, optional}
use vmkit_agent.Backup.Tools.{
  get_postgres_container, calculate_file_checksum, download_file, fix_auth_permissions,
  is_instance_healthy,
}
use vmkit_agent.Backup.Restore.Steps.{
  RestoreConfig, validate, download, verify_checksum, stop_instance, restore_database, recreate,
  feed_database, fix_permissions, restart_instance, check_health,
}
use vmkit_agent.Backup.Restore.{
  RestoreResult, finish, restore_storage, restore_from, restore_flow, restore,
}
use vmkit_agent.Backup.Restore.Laws.{restore_plan, restore-Tells}
use vmkit_agent.Backup.Restore.Order.{drops, verified, restore-verified_first}
use vmkit_agent.Backup.Save.Steps.{BackupConfig}
use vmkit_agent.Backup.Save.{BackupResult, backup}
use vmkit_agent.Backup.Save.Laws.{backup_plan, backup-Tells}
use vmkit_agent.Backup.Verify.{VerifyBackupConfig}

abbrev as_is : String → String
as_is text = text

abbrev from_store : RestoreConfig
from_store = record {
  instance_id = "i1";
  subdomain = "acme";
  base_dir = "";
  download_url = "https://store/acme";
  storage_download_url = "";
  stop_instance = true;
  verify_checksum = true;
  expected_checksum = "sha256:dump";
}

-- The checksum of another file
abbrev wrong_sum : RestoreConfig
wrong_sum = record from_store { expected_checksum = "sha256:other" }

restored_instance : made drops (restore as_is from_store server []).1 ≡ true
unfolding restore restore_flow restore_from finish restore_storage ◌>>=◌ ◌>>◌ stage ask deferred
    within pass optional return validate download download_file verify_checksum
    calculate_file_checksum stop_instance restore_database get_postgres_container recreate
    feed_database fix_permissions fix_auth_permissions restart_instance check_health
    is_instance_healthy trim_space contains
restored_instance = refl

refused_dump : made drops (restore as_is wrong_sum server []).1 ≡ false
unfolding restore restore_flow restore_from finish restore_storage ◌>>=◌ ◌>>◌ stage ask deferred
    within pass optional return validate download download_file verify_checksum
    calculate_file_checksum stop_instance restore_database get_postgres_container recreate
    feed_database fix_permissions fix_auth_permissions restart_instance check_health
    is_instance_healthy trim_space contains
refused_dump = refl

restore-Tells_example :
    (r : RestoreResult) × ((restore as_is from_store server []).0 ≡ ok r)
    × IsRun (restore_plan from_store) r.steps
    × Tells r.success r.failed_step r.error_message (first_failed r.steps)
restore-Tells_example = restore-Tells as_is from_store server

restore-verified_first_example :
    guarded drops (verified as_is from_store server) (restore as_is from_store server []).1 ≡ true
restore-verified_first_example = restore-verified_first as_is from_store server

abbrev to_store : BackupConfig
to_store = record {
  instance_id = "i1";
  subdomain = "acme";
  base_dir = "";
  upload_url = "https://store/acme";
  storage_upload_url = "https://store/files";
  include_storage = true;
}

backup-Tells_example :
    (r : BackupResult) × ((backup as_is to_store server []).0 ≡ ok r)
    × IsRun (backup_plan to_store) r.steps
    × Tells r.success r.failed_step r.error_message (first_failed r.steps)
backup-Tells_example = backup-Tells as_is to_store server

abbrev a_backup : VerifyBackupConfig
a_backup = record {
  backup_id = "b1";
  download_url = "https://store/acme";
  expected_checksum = "sha256:dump";
  deep_verify = true;
  subdomain = "acme";
  base_dir = "";
}
