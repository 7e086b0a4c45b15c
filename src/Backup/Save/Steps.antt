-- ===== src/Backup/Save/Steps.antt =====
-- The steps of `Backup`.
use vmkit_agent.Base.{
  ℕ, ◌*◌, String, ◌<>◌, Bool, not, ◌&&◌, List, [], ◌∷◌, ltb, is_empty, join_path, itoa,
  if◌then◌else◌,
}
use vmkit_agent.Host.{
  stat, create_file, stdout_pipe, start, wait, Outcome, ok, err, M, ◌>>=◌, ◌>>◌, return, ensure,
  call, require, attempt, wrapped, must_exist, succeeded, error_text, message,
}
use vmkit_agent.Backup.Tools.{
  compose_file, is_docker_available, get_postgres_container, get_storage_container,
  get_free_disk_space, calculate_file_checksum, upload_file, export_storage_data,
}

pub record BackupConfig : Type 0 where
  pub instance_id : String
  pub subdomain : String
  pub base_dir : String
  pub upload_url : String
  pub storage_upload_url : String
  pub include_storage : Bool

pub record BackupMetadata : Type 0 where
  pub backup_id : String
  pub instance_id : String
  pub subdomain : String
  pub supabase_version : String
  pub timestamp : String
  pub size_bytes : ℕ
  pub checksum : String
  pub storage_size_bytes : ℕ
  pub storage_checksum : String
  pub status : String

abbrev pub dir_of : BackupConfig → String
dir_of cfg =
    join_path (if is_empty cfg.base_dir then "/opt/supabase" else cfg.base_dir) cfg.subdomain

-- The container of the database
unfoldable pub validate : String → M String
validate dir = do
  must_exist dir ("Instance directory not found: " <> dir)
  must_exist (compose_file dir) ("Docker Compose file not found: " <> compose_file dir)
  available ← is_docker_available
  ensure available "Docker is not available"
  container ← wrapped "Failed to get Postgres container: " (get_postgres_container dir)
  free ← wrapped "Failed to check disk space: " (get_free_disk_space "/tmp")
  ensure (not (ltb free (1024 * 1024 * 1024)))
      ("Insufficient disk space: " <> itoa free <> " bytes available, need at least 1GB")
  return container

abbrev pub dump_argv : String → List String
dump_argv container =
    "docker" ∷ "exec" ∷ container ∷ "pg_dump" ∷ "-U" ∷ "postgres" ∷ "-d" ∷ "postgres" ∷ []

unfoldable pub open_dump : String → String → M (Unit {0})
open_dump container file = do
  require (stdout_pipe (dump_argv container)) (message "Failed to create dump pipe: ")
  require (create_file file 0o666) (message "Failed to create backup file: ")
  return tt

-- The size of the dump
unfoldable pub run_dump : String → String → M ℕ
run_dump container file = do
  require (start (dump_argv container)) (message "Failed to start pg_dump: ")
  require (start ("gzip" ∷ [])) (message "Failed to start gzip: ")
  require (wait (dump_argv container)) (message "pg_dump failed: ")
  require (wait ("gzip" ∷ [])) (λ r. "gzip failed: " <> error_text r <> " - " <> r.errors)
  info ← require (stat file) (message "Failed to stat backup file: ")
  return info.number

unfoldable pub checksum : (String → String) → String → M String
checksum digest file =
    wrapped "Failed to calculate checksum: " (calculate_file_checksum digest file)

unfoldable pub upload : String → String → M String
upload file url =
    if is_empty url
    then return "Upload skipped (no upload_url configured, backup saved locally)"
    else (do
      wrapped "Failed to upload database backup: " (upload_file file url)
      return "Database backup uploaded successfully")

-- What the step says, and what it adds to the metadata
abbrev pub Noted : Type 0
Noted = String × (BackupMetadata → BackupMetadata)

abbrev only : String → Noted
only note = (note, λ m. m)

abbrev pub with_sum : Outcome String → BackupMetadata → BackupMetadata
with_sum (ok sum) m = record m { storage_checksum = sum }
with_sum (err e) m = m

abbrev pub uploaded : ℕ → Outcome (Unit {0}) → String
uploaded size (ok _) = "Storage backup uploaded: " <> itoa size <> " bytes"
uploaded size (err e) = "Storage backup upload failed: " <> e

module _ (digest : String → String) where
  abbrev pub upload_storage : BackupConfig → String → ℕ → M Noted
  upload_storage cfg file size = do
    sum ← attempt (calculate_file_checksum digest file)
    r ← attempt (upload_file file cfg.storage_upload_url)
    return (uploaded size r, λ m. with_sum sum (record m { storage_size_bytes = size }))

  -- Only a file of some size is sent.
  abbrev pub after_export : BackupConfig → String → Outcome (Unit {0}) → M Noted
  after_export cfg file (err e) = return (only ("Storage backup skipped: " <> e))
  after_export cfg file (ok _) = do
    info ← call (stat file)
    if succeeded info && ltb 100 info.number
        then upload_storage cfg file info.number
        else return (only "Storage directory is empty, skipping")

  abbrev pub export_from : BackupConfig → String → Outcome String → M Noted
  export_from cfg file (err e) = return (only "Storage container not running, skipping")
  export_from cfg file (ok id) =
      if is_empty id
      then return (only "Storage container not running, skipping")
      else (do r ← attempt (export_storage_data id file); after_export cfg file r)

  -- No error of the storage is an error of the backup.
  unfoldable pub save_storage : BackupConfig → String → String → M Noted
  save_storage cfg dir file = do id ← attempt (get_storage_container dir); export_from cfg file id
