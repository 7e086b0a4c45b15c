-- ===== src/Backup/Verify/Checks.antt =====
-- The checks of `Verify` of internal/backup/verify.go. An error that the decompression reports counts
-- when the lines before it have been read.
use vmkit_agent.Base.{
  ℕ, zero, suc, String, ◌<>◌, Bool, not, ◌||◌, Option, none, some, List, [], ◌∷◌, ◌==ₛ◌, leb,
  contains, starts_with, is_empty, join_path, trim_space, split_at, byte_count, itoa, if◌then◌else◌,
}
use vmkit_agent.Host.{
  Call, open_file, close_file, gzip_reader, read_unzipped, stdout_pipe, start, wait, unix_time,
  Outcome, ok, err, M, ◌>>=◌, ◌>>◌, return, of_outcome, ensure, call, require, finally, wrapped,
  must_exist, succeeded, error_text, cmd, message,
}
use vmkit_agent.Backup.Tools.{compose_file, get_postgres_container}
use vmkit_agent.Backup.Restore.Steps.{with_output, sql_call, has_errors}

unfoldable pub verify_gzip_integrity : String → M (Unit {0})
verify_gzip_integrity file = do
  require (cmd 0 ("gzip" ∷ "-t" ∷ file ∷ [])) (with_output "gzip test failed: ")
  return tt

abbrev pub is_header : String → Bool
is_header line =
    contains line "PostgreSQL database dump"
    || contains line "pg_dump"
    || contains line "Dumped from database version"
    || starts_with line "CREATE "
    || starts_with line "SET "
    || starts_with line "SELECT pg_catalog."

-- The lines of a text; an end of line at the end of the text begins no line.
pub lines_of : List String → List String
lines_of [] = []
lines_of (line ∷ []) = if is_empty line then [] else line ∷ []
lines_of (line ∷ next ∷ rest) = line ∷ lines_of (next ∷ rest)

abbrev no_dump : String
no_dump = "file does not appear to be a valid PostgreSQL dump"

abbrev too_long : String
too_long = "error reading SQL content: bufio.Scanner: token too long"

abbrev read_error : Option String → String
read_error none = no_dump
read_error (some e) = "error reading SQL content: " <> e

abbrev is_long : String → Bool
is_long line = leb 65536 (byte_count line)

-- So many lines may still be looked at; one more is read when none may.
unfoldable pub find_header : ℕ → List String → Option String → Outcome (Unit {0})
find_header left [] e = err (read_error e)
find_header zero (line ∷ rest) e = err (if is_long line then too_long else no_dump)
find_header (suc left) (line ∷ rest) e =
    let more = find_header left rest e in
    if is_long line then err too_long else if is_header line then ok tt else more

unfoldable pub verify_sql_header : String → M (Unit {0})
unfolding lines_of
verify_sql_header file = do
  require (open_file file) (message "failed to open file: ")
  finally (close_file file) (do
    require (gzip_reader file) (message "failed to create gzip reader: ")
    r ← call (read_unzipped file)
    of_outcome (find_header 50 (lines_of (split_at b'\n' r.output)) r.error))

abbrev db_call : String → String → List String → Call
db_call id db args = cmd 0 ("docker" ∷ "exec" ∷ id ∷ "psql" ∷ "-U" ∷ "postgres" ∷ "-d" ∷ db ∷ args)

abbrev tables_sql : String
tables_sql =
    "SELECT COUNT(*) FROM information_schema.tables WHERE table_schema NOT IN ('pg_catalog', 'information_schema');"

abbrev schemas_sql : String
schemas_sql =
    "SELECT COUNT(*) FROM information_schema.schemata WHERE schema_name IN ('auth', 'storage', 'public');"

-- Whatever the last query answers is accepted.
unfoldable pub run_sanity_checks : String → String → M (Unit {0})
run_sanity_checks id db = do
  require (db_call id db ("-c" ∷ "SELECT 1;" ∷ [])) (with_output "connection test failed: ")
  count ←
      require (db_call id db ("-t" ∷ "-c" ∷ tables_sql ∷ [])) (message "table count query failed: ")
  ensure (not (trim_space count.output ==ₛ "0"))
      "restored database has no tables (may be empty backup)"
  call (db_call id db ("-t" ∷ "-c" ∷ schemas_sql ∷ []))
  return tt

unfoldable pub test_restore : String → String → String → M (Unit {0})
test_restore id db file = do
  let unzip = "gunzip" ∷ "-c" ∷ file ∷ []
  let psql = "docker" ∷ "exec" ∷ "-i" ∷ id ∷ "psql" ∷ "-U" ∷ "postgres" ∷ "-d" ∷ db ∷ "-q" ∷ []
  require (stdout_pipe unzip) (message "failed to create gunzip pipe: ")
  require (start unzip) (message "failed to start gunzip: ")
  require (start psql) (message "failed to start psql: ")
  require (wait unzip) (message "gunzip failed: ")
  r ← call (wait psql)
  ensure (succeeded r || not (has_errors r.errors))
      ("restore to test database failed: " <> error_text r <> " - " <> r.errors)
  wrapped "sanity checks failed: " (run_sanity_checks id db)

-- The test database is dropped at the end of all that follows its creation.
unfoldable pub perform_deep_verification : String → String → String → M (Unit {0})
perform_deep_verification file subdomain base_dir = do
  let dir = join_path (if is_empty base_dir then "/opt/supabase" else base_dir) subdomain
  must_exist (compose_file dir)
      ("instance not found at " <> dir <> " (required for deep verification)")
  id ← wrapped "failed to get postgres container: " (get_postgres_container dir)
  time ← call unix_time
  let db = "verify_test_" <> itoa time.number
  require (sql_call id ("CREATE DATABASE " <> db <> ";"))
      (with_output "failed to create test database: ")
  finally (sql_call id ("DROP DATABASE IF EXISTS " <> db <> ";")) (test_restore id db file)
