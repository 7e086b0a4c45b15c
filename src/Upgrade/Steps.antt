-- ===== src/Upgrade/Steps.antt =====
-- The steps of `Upgrade`, and its rollback.
use vmkit_agent.Base.{
  ◌*◌, String, ◌<>◌, Bool, true, false, not, Option, none, some, List, [], ◌∷◌, ltb, is_empty,
  join_path, itoa, if◌then◌else◌,
}
use vmkit_agent.Host.{
  Call, sleep, read_file, write_file, M, ◌>>=◌, ◌>>◌, return, fail, ensure, of_outcome, call,
  require, attempt, best_effort, wrapped, must_exist, when, cmd, message,
}
use vmkit_agent.Backup.Tools.{get_free_disk_space, plainly}
use vmkit_agent.Backup.Restore.Steps.{with_output}
use vmkit_agent.Backup.Save.Steps.{BackupConfig}
use vmkit_agent.Backup.Save.{BackupResult, backup}
use vmkit_agent.Compose.{instance_dir, compose_stop, up}
use vmkit_agent.Health.Round.{default_check_config}
use vmkit_agent.Health.{Checked, check_all}
use vmkit_agent.Upgrade.Versions.{VersionInfo, version_registry, find, validate_version_upgrade}
use vmkit_agent.Upgrade.Images.{replace_image_version}

pub record UpgradeConfig : Type 0 where
  pub instance_id : String
  pub subdomain : String
  pub base_dir : String
  pub current_version : String
  pub target_version : String
  pub backup_before_upgrade : Bool
  pub rollback_on_failure : Bool
  pub backup_upload_url : String
  pub storage_upload_url : String
  pub compose_content : String
  pub env_content : String

abbrev pub base_of : UpgradeConfig → String
base_of cfg = if is_empty cfg.base_dir then "/opt/supabase" else cfg.base_dir

abbrev pub dir_of : UpgradeConfig → String
dir_of cfg = instance_dir cfg.subdomain (base_of cfg)

abbrev pub compose_of : UpgradeConfig → String
compose_of cfg = join_path (dir_of cfg) "docker-compose.yml"

abbrev pub saved_of : UpgradeConfig → String
saved_of cfg = join_path (dir_of cfg) "docker-compose.yml.backup"

abbrev pub copy_call : String → String → Call
copy_call src dst = cmd 0 ("cp" ∷ src ∷ dst ∷ [])

abbrev pub is_healthy : Checked → Bool
is_healthy (r, none) = r.all_healthy
is_healthy (r, some e) = false

unfoldable pub check_health : String → UpgradeConfig → M (Unit {0})
check_health text cfg = do
  r ← check_all (default_check_config cfg.subdomain)
  ensure (is_healthy r) text

unfoldable pub check_again : UpgradeConfig → M (Unit {0})
check_again cfg = do call (sleep 15000); check_health "Health check failed after upgrade" cfg

unfoldable pub check_space : M (Unit {0})
check_space = do
  free ← wrapped "Failed to check disk space: " (get_free_disk_space "/var/lib/docker")
  ensure (not (ltb free (5 * 1024 * 1024 * 1024)))
      ("Insufficient disk space: " <> itoa free <> " bytes available, need at least 5GB")

abbrev pub unhealthy_text : String
unhealthy_text = "Instance is not healthy before upgrade - fix issues before upgrading"

unfoldable pub validate : UpgradeConfig → M (Unit {0})
validate cfg = do
  must_exist (dir_of cfg) ("Instance directory not found: " <> dir_of cfg)
  of_outcome (validate_version_upgrade cfg.current_version cfg.target_version)
  check_space
  check_health unhealthy_text cfg

abbrev pub backup_config : UpgradeConfig → BackupConfig
backup_config cfg = record {
  instance_id = cfg.instance_id;
  subdomain = cfg.subdomain;
  base_dir = base_of cfg;
  upload_url = cfg.backup_upload_url;
  storage_upload_url = cfg.storage_upload_url;
  include_storage = true;
}

abbrev pub backup_answer : BackupResult → M String
backup_answer r =
    if r.success
    then return r.backup_id
    else fail ("Pre-upgrade backup failed: " <> r.error_message)

-- The identifier of the backup
unfoldable pub save_backup : (String → String) → UpgradeConfig → M String
save_backup digest cfg = do r ← backup digest (backup_config cfg); backup_answer r

unfoldable pub save_configuration : UpgradeConfig → M (Unit {0})
save_configuration cfg = do
  require (copy_call (compose_of cfg) (saved_of cfg))
      (message "Failed to backup docker-compose.yml: ")
  return tt

unfoldable pub restore_copy : UpgradeConfig → M (Unit {0})
restore_copy cfg =
    when cfg.rollback_on_failure (best_effort (copy_call (saved_of cfg) (compose_of cfg)))

-- The contents that the backend sent
unfoldable pub write_given : UpgradeConfig → M (Unit {0})
write_given cfg = do
  require (write_file (compose_of cfg) cfg.compose_content 0o644)
      (message "Failed to write docker-compose.yml: ")
  when (not (is_empty cfg.env_content)) (do
    require (write_file (join_path (dir_of cfg) ".env") cfg.env_content 0o644)
        (message "Failed to write .env: ")
    return tt)

abbrev pub found_or : String → Option VersionInfo → M VersionInfo
found_or target (some info) = return info
found_or target none = fail ("Unknown target version: " <> target)

unfoldable pub registered : String → M VersionInfo
registered target = found_or target (find target version_registry)

unfoldable pub pull_images : List String → M (Unit {0})
pull_images [] = return tt
pull_images (image ∷ images) = do
  require (cmd 0 ("docker" ∷ "pull" ∷ image ∷ []))
      (with_output ("Failed to pull image " <> image <> ": "))
  pull_images images

abbrev pub new_images : String → VersionInfo → String
new_images content info =
    replace_image_version
      (replace_image_version (replace_image_version content "postgres" info.postgres) "kong"
        info.kong)
      "studio" info.studio

unfoldable pub update_docker_compose : String → VersionInfo → M (Unit {0})
update_docker_compose file info = do
  r ← require (read_file file) plainly
  require (write_file file (new_images r.output info) 0o644) plainly
  return tt

unfoldable pub pull_and_update : UpgradeConfig → VersionInfo → M (Unit {0})
pull_and_update cfg info = do
  pull_images (info.postgres ∷ info.kong ∷ info.studio ∷ [])
  wrapped "Failed to update docker-compose.yml: " (update_docker_compose (compose_of cfg) info)

unfoldable pub restart : UpgradeConfig → M (Unit {0})
restart cfg = do
  wrapped "Failed to stop containers: " (compose_stop (dir_of cfg))
  wrapped "Failed to start containers with new images: " (up (dir_of cfg))

-- An error of the first step is dropped; the caller drops those of the others.
unfoldable pub rollback_upgrade : UpgradeConfig → M (Unit {0})
rollback_upgrade cfg = do
  attempt (compose_stop (dir_of cfg))
  require (copy_call (saved_of cfg) (compose_of cfg)) plainly
  up (dir_of cfg)
