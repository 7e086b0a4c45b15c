-- ===== src/Backup/Tools.antt =====
-- The helper functions of internal/backup/backup.go. `getFreeDiskSpace` stands with the same text
-- in internal/upgrade/upgrade.go too.
use vmkit_agent.Base.{
  ℕ, String, ◌<>◌, Bool, not, ◌&&◌, ◌||◌, List, [], ◌∷◌, ◌==◌, contains, is_empty, join_path,
  trim_space, split_at, fields, scan_uint, itoa, if◌then◌else◌,
}
use vmkit_agent.Host.{
  Call, exec_input, stdout_pipe, start, wait, open_file, file_stat, read_opened, create_file,
  copy_body, close_file, new_request, http_put, http_get, read_body, Reply, M, ◌>>=◌, ◌>>◌, return,
  fail, ensure, call, require, finally, succeeded, error_text, cmd,
}

-- `return err`
abbrev pub plainly : Reply → String
plainly = error_text

abbrev pub compose_file : String → String
compose_file dir = join_path dir "docker-compose.yml"

unfoldable pub is_docker_available : M Bool
is_docker_available = do r ← call (cmd 0 ("docker" ∷ "ps" ∷ [])); return (succeeded r)

abbrev pub asks_container : String → String → Call
asks_container dir service =
    cmd 0 ("docker" ∷ "compose" ∷ "-f" ∷ compose_file dir ∷ "ps" ∷ "-q" ∷ service ∷ [])

unfoldable pub get_postgres_container : String → M String
get_postgres_container dir = do
  r ← require (asks_container dir "postgres") plainly
  let id = trim_space r.output
  ensure (not (is_empty id)) "postgres container not running"
  return id

unfoldable pub get_storage_container : String → M String
get_storage_container dir = do
  r ← require (asks_container dir "storage") plainly
  return (trim_space r.output)

-- The fourth field of the second line, or an error
abbrev free_in : List String → M ℕ
free_in (a ∷ b ∷ c ∷ d ∷ rest) = return (scan_uint d)
free_in _ = fail "unexpected df output format"

abbrev free_of : List String → M ℕ
free_of (head ∷ line ∷ rest) = free_in (fields line)
free_of _ = fail "unexpected df output"

unfoldable pub get_free_disk_space : String → M ℕ
get_free_disk_space path = do
  r ← require (cmd 0 ("df" ∷ "-B1" ∷ path ∷ [])) plainly
  free_of (split_at b'\n' r.output)

-- SHA-256 as a hexadecimal text
module _ (digest : String → String) where
  unfoldable pub calculate_file_checksum : String → M String
  calculate_file_checksum path = do
    require (open_file path) plainly
    finally (close_file path)
        (do r ← require (read_opened path) plainly; return ("sha256:" <> digest r.output))

unfoldable pub send_file : String → String → M (Unit {0})
send_file path url = do
  require (file_stat path) plainly
  require (new_request url) plainly
  resp ← require (http_put url path) plainly
  if resp.number == 200 || resp.number == 201 then return tt else (do
    body ← call read_body
    fail ("upload failed with status " <> itoa resp.number <> ": " <> body.output))

unfoldable pub upload_file : String → String → M (Unit {0})
unfolding send_file
upload_file path url = do
  require (open_file path) plainly
  finally (close_file path) (send_file path url)

unfoldable pub save_body : String → M (Unit {0})
save_body path = do
  require (create_file path 0o666) plainly
  finally (close_file path) (do require (copy_body path) plainly; return tt)

unfoldable pub download_file : String → String → M (Unit {0})
unfolding save_body
download_file url path = do
  resp ← require (http_get url) plainly
  if resp.number == 200 then save_body path else (do
    body ← call read_body
    fail ("download failed with status " <> itoa resp.number <> ": " <> body.output))

-- Two commands joined by a pipe are started and waited for, the first one first.
unfoldable pub run_both : List String → List String → M (Unit {0})
run_both first second = do
  require (start first) plainly
  require (start second) plainly
  require (wait first) plainly
  require (wait second) plainly
  return tt

unfoldable pub export_storage_data : String → String → M (Unit {0})
unfolding run_both
export_storage_data id path = do
  let copy = "docker" ∷ "cp" ∷ (id <> ":/var/lib/storage") ∷ "-" ∷ []
  require (stdout_pipe copy) plainly
  require (create_file path 0o666) plainly
  finally (close_file path) (run_both copy ("gzip" ∷ []))

unfoldable pub import_storage_data : String → String → M (Unit {0})
unfolding run_both
import_storage_data id path = do
  let unzip = "gunzip" ∷ "-c" ∷ path ∷ []
  require (stdout_pipe unzip) plainly
  run_both unzip ("docker" ∷ "cp" ∷ "-" ∷ (id <> ":/var/lib/") ∷ [])

abbrev pub auth_fixup_sql : String
auth_fixup_sql =
    "GRANT ALL ON SCHEMA auth TO supabase_auth_admin;\n"
    <> "GRANT ALL ON ALL TABLES IN SCHEMA auth TO supabase_auth_admin;\n"
    <> "GRANT ALL ON ALL SEQUENCES IN SCHEMA auth TO supabase_auth_admin;\n"
    <> "DO $$\nDECLARE\n    r RECORD;\nBEGIN\n"
    <> "    FOR r IN SELECT tablename FROM pg_tables WHERE schemaname = 'auth'\n    LOOP\n"
    <> "        EXECUTE 'ALTER TABLE auth.' || quote_ident(r.tablename) || ' DISABLE ROW LEVEL SECURITY';\n"
    <> "    END LOOP;\nEND\n$$;\n"

unfoldable pub fix_auth_permissions : String → M (Unit {0})
fix_auth_permissions id = do
  require
      (exec_input
        ("docker" ∷ "exec" ∷ "-i" ∷ id ∷ "psql" ∷ "-U" ∷ "postgres" ∷ "-d" ∷ "postgres" ∷ "-v"
          ∷ "ON_ERROR_STOP=1" ∷ [])
        auth_fixup_sql)
      (λ r. "psql failed: " <> error_text r <> " - " <> r.output)
  return tt

unfoldable pub is_instance_healthy : String → M Bool
is_instance_healthy dir = do
  r ←
      call
        (cmd 0 ("docker" ∷ "compose" ∷ "-f" ∷ compose_file dir ∷ "ps" ∷ "--format" ∷ "json" ∷ []))
  return (succeeded r && not (is_empty r.output) && not (contains r.output "\"State\":\"exited\""))
