-- ===== src/Backup/Restore/Steps.antt =====
-- The steps of `Restore`.
use vmkit_agent.Base.{
  String, ◌<>◌, Bool, not, ◌||◌, List, [], ◌∷◌, ◌==ₛ◌, contains, is_empty, join_path, if◌then◌else◌,
}
use vmkit_agent.Host.{
  Call, sleep, stdout_pipe, start, wait, Reply, Outcome, ok, err, M, ◌>>=◌, ◌>>◌, return, ensure,
  call, require, attempt, wrapped, must_exist, succeeded, error_text, cmd, message,
}
use vmkit_agent.Backup.Tools.{
  compose_file, get_postgres_container, get_storage_container, calculate_file_checksum,
  download_file, import_storage_data, fix_auth_permissions, is_instance_healthy,
}

pub record RestoreConfig : Type 0 where
  pub instance_id : String
  pub subdomain : String
  pub base_dir : String
  pub download_url : String
  pub storage_download_url : String
  pub stop_instance : Bool
  pub verify_checksum : Bool
  pub expected_checksum : String

abbrev pub dir_of : RestoreConfig → String
dir_of cfg =
    join_path (if is_empty cfg.base_dir then "/opt/supabase" else cfg.base_dir) cfg.subdomain

unfoldable pub validate : String → M (Unit {0})
validate dir = do
  must_exist dir ("Instance directory not found: " <> dir)
  must_exist (compose_file dir) ("Docker Compose file not found: " <> compose_file dir)

unfoldable pub download : String → String → M (Unit {0})
download url file = wrapped "Failed to download backup: " (download_file url file)

unfoldable pub verify_checksum : (String → String) → String → String → M (Unit {0})
verify_checksum digest expected file = do
  sum ← wrapped "Failed to calculate checksum: " (calculate_file_checksum digest file)
  ensure (sum ==ₛ expected) ("Checksum mismatch: expected " <> expected <> ", got " <> sum)

abbrev pub with_output : String → Reply → String
with_output prefix r = prefix <> error_text r <> " - " <> r.output

abbrev pub compose_call : String → List String → Call
compose_call dir args = cmd 0 ("docker" ∷ "compose" ∷ "-f" ∷ compose_file dir ∷ args)

unfoldable pub stop_instance : String → M (Unit {0})
stop_instance dir = do
  require (compose_call dir ("stop" ∷ [])) (with_output "Failed to stop instance: ")
  return tt

-- The container of the database, started if it does not run
abbrev pub started : String → Outcome String → M String
started dir (ok id) = return id
started dir (err e) = do
  require (compose_call dir ("start" ∷ "postgres" ∷ []))
      (with_output "Failed to start database container: ")
  call (sleep 5000)
  wrapped "Failed to get Postgres container after start: " (get_postgres_container dir)

abbrev pub sql_call : String → String → Call
sql_call id sql = cmd 0 ("docker" ∷ "exec" ∷ id ∷ "psql" ∷ "-U" ∷ "postgres" ∷ "-c" ∷ sql ∷ [])

-- `psql` may fail because of warnings alone.
abbrev pub has_errors : String → Bool
has_errors text = contains text "ERROR" || contains text "FATAL"

unfoldable pub feed_database : String → String → M (Unit {0})
feed_database id file = do
  let unzip = "gunzip" ∷ "-c" ∷ file ∷ []
  let psql = "docker" ∷ "exec" ∷ "-i" ∷ id ∷ "psql" ∷ "-U" ∷ "postgres" ∷ "-d" ∷ "postgres" ∷ []
  require (stdout_pipe unzip) (message "Failed to create gunzip pipe: ")
  require (start unzip) (message "Failed to start gunzip: ")
  require (start psql) (message "Failed to start psql: ")
  require (wait unzip) (message "gunzip failed: ")
  r ← call (wait psql)
  ensure (succeeded r || not (has_errors r.errors))
      ("psql failed: " <> error_text r <> " - " <> r.errors)

unfoldable pub recreate : String → String → M String
recreate id file = do
  require (sql_call id "DROP DATABASE IF EXISTS postgres;")
      (with_output "Failed to drop database: ")
  require (sql_call id "CREATE DATABASE postgres;") (with_output "Failed to create database: ")
  feed_database id file
  return id

unfoldable pub restore_database : String → String → M String
restore_database dir file = do
  found ← attempt (get_postgres_container dir)
  id ← started dir found
  recreate id file

unfoldable pub fix_permissions : String → M (Unit {0})
fix_permissions id = wrapped "Failed to fix auth permissions: " (fix_auth_permissions id)

abbrev pub imported : Outcome (Unit {0}) → String
imported (ok _) = "Storage files restored successfully"
imported (err e) = "Storage restore failed: " <> e

abbrev pub import_into : String → Outcome String → M String
import_into file (err e) = return "Storage container not available, skipping"
import_into file (ok id) =
    if is_empty id
    then return "Storage container not available, skipping"
    else (do r ← attempt (import_storage_data id file); return (imported r))

abbrev pub import_downloaded : String → String → Outcome (Unit {0}) → M String
import_downloaded dir file (err e) = return ("Storage restore skipped: " <> e)
import_downloaded dir file (ok _) = do id ← attempt (get_storage_container dir); import_into file id

-- No error of the storage is an error of the restore; the note of the step says what happened.
unfoldable pub storage_note : String → String → String → M String
storage_note url dir file = do r ← attempt (download_file url file); import_downloaded dir file r

unfoldable pub restart_instance : String → M (Unit {0})
restart_instance dir = do
  require (compose_call dir ("restart" ∷ [])) (with_output "Failed to restart instance: ")
  return tt

unfoldable pub check_health : String → M (Unit {0})
check_health dir = do
  call (sleep 10000)
  healthy ← is_instance_healthy dir
  ensure healthy "Health check failed after restore"
