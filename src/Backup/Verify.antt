-- ===== src/Backup/Verify.antt =====
-- `Verify` of internal/backup/verify.go.
pub mod Checks
pub mod Laws
mod Keeps
pub mod Sum
use vmkit_agent.Base.{
  ℕ, String, ◌<>◌, Bool, true, false, not, List, [], ◌∷◌, ◌++◌, ◌==◌, ◌==ₛ◌, is_empty, join_path,
  itoa, if◌then◌else◌,
}
use vmkit_agent.Host.{
  Call, stat, remove, unix_time, now, Reply, Outcome, ok, err, M, ◌>>=◌, ◌>>◌, return, ensure, call,
  require, attempt, finally,
}
use vmkit_agent.Backup.Tools.{calculate_file_checksum, download_file, plainly}
use vmkit_agent.Backup.Verify.Checks.{
  verify_gzip_integrity, verify_sql_header, perform_deep_verification,
}

pub record VerifyBackupConfig : Type 0 where
  pub backup_id : String
  pub download_url : String
  pub expected_checksum : String
  pub deep_verify : Bool
  pub subdomain : String
  pub base_dir : String

-- The status of a check. `in_progress`, with which a check begins, is never put into the result.
pub data CheckStatus : Type 0 where
  passed failed skipped : CheckStatus

pub record VerificationCheck : Type 0 where
  pub name : String
  pub status : CheckStatus
  pub message : String

pub record VerifyBackupResult : Type 0 where
  pub success : Bool
  pub backup_id : String
  pub verified_at : String
  pub checks : List VerificationCheck
  pub overall_status : String
  pub error_message : String

abbrev pub with_check : VerificationCheck → VerifyBackupResult → VerifyBackupResult
with_check c r = record r { checks = r.checks ++ c ∷ [] }

-- How a check ended: with a message, or with what the failure puts into the result, which is the
-- message of the check, that of the result, and the overall status
pub data Judgement : Type 0 where
  good : String → Judgement
  bad : String → String → String → Judgement

abbrev pub Rest : Type 0
Rest = VerifyBackupResult → M VerifyBackupResult

unfoldable pub judged : String → Rest → VerifyBackupResult → Judgement → M VerifyBackupResult
judged name next r (good note) =
    next (with_check (record { name = name; status = passed; message = note }) r)
judged name next r (bad note message overall) =
    return (record (with_check (record { name = name; status = failed; message = note }) r) {
      error_message = message;
      overall_status = overall;
    })

-- A check, and what follows it if it passes
unfoldable pub run_check : {A : Type 0} → String → (Outcome A → Judgement) → M A → Rest → Rest
run_check name weigh m next r = do o ← attempt m; judged name next r (weigh o)

abbrev simply : {A : Type 0} → String → String → String → Outcome A → Judgement
simply note failure message (ok a) = good note
simply note failure message (err e) = bad (failure <> e) message "failed"

unfoldable pub skip_check : String → String → Rest → Rest
skip_check name message next r =
    next (with_check (record { name = name; status = skipped; message = message }) r)

unfoldable pub finish : Rest
finish r = return (record r { success = true; overall_status = "verified" })

abbrev pub weigh_deep : Outcome (Unit {0}) → Judgement
weigh_deep (ok _) = good "Test restore successful"
weigh_deep (err e) =
    bad ("Test restore failed: " <> e) "Deep verification failed - backup may not be restorable"
      "partial"

unfoldable pub deep_check : VerifyBackupConfig → String → Rest
deep_check cfg file =
    if cfg.deep_verify
    then run_check "deep_verify" weigh_deep
        (perform_deep_verification file cfg.subdomain cfg.base_dir) finish
    else skip_check "deep_verify" "Deep verification not requested" finish

unfoldable pub header_check : VerifyBackupConfig → String → Rest
header_check cfg file =
    run_check "sql_header"
      (simply "SQL dump format validated" "SQL validation failed: " "Invalid SQL dump format")
      (verify_sql_header file) (deep_check cfg file)

unfoldable pub gzip_check : VerifyBackupConfig → String → Rest
gzip_check cfg file =
    run_check "gzip_integrity"
      (simply "gzip integrity verified" "gzip integrity test failed: "
        "Backup file is corrupted (gzip test failed)")
      (verify_gzip_integrity file) (header_check cfg file)

abbrev pub weigh_sum : String → Outcome String → Judgement
weigh_sum expected (err e) =
    bad ("Checksum calculation failed: " <> e) "Failed to calculate checksum" "failed"
weigh_sum expected (ok sum) =
    if sum ==ₛ expected
    then good "Checksum verified"
    else bad ("Checksum mismatch: expected " <> expected <> ", got " <> sum)
        "Checksum verification failed - backup may be corrupted" "failed"

abbrev weigh_file : Outcome Reply → Judgement
weigh_file (err e) = bad ("File stat failed: " <> e) "Backup file not accessible" "failed"
weigh_file (ok info) =
    if info.number == 0
    then bad "Backup file is empty" "Backup file has zero size" "failed"
    else good ("File exists: " <> itoa info.number <> " bytes")

abbrev weigh_download : Outcome (Unit {0}) → Judgement
weigh_download (ok _) = good "Backup downloaded successfully"
weigh_download (err e) =
    bad ("Download failed: " <> e) ("Failed to download backup: " <> e) "failed"

abbrev begun : VerifyBackupConfig → String → VerifyBackupResult
begun cfg time = record {
  success = false;
  backup_id = cfg.backup_id;
  verified_at = time;
  checks = [];
  overall_status = "failed";
  error_message = "";
}

abbrev pub clock_call : Call
clock_call = now "2006-01-02T15:04:05Z07:00"

-- SHA-256 as a hexadecimal text
module _ (digest : String → String) (cfg : VerifyBackupConfig) where
  unfoldable pub sum_check : String → Rest
  sum_check file =
      if is_empty cfg.expected_checksum
      then skip_check "checksum_verification" "No expected checksum provided" (gzip_check cfg file)
      else run_check "checksum_verification" (weigh_sum cfg.expected_checksum)
          (calculate_file_checksum digest file) (gzip_check cfg file)

  unfoldable pub file_check : String → Rest
  file_check file = run_check "file_check" weigh_file (require (stat file) plainly) (sum_check file)

  unfoldable pub download_check : String → Rest
  download_check file =
      run_check "download_backup" weigh_download (download_file cfg.download_url file)
        (file_check file)

  unfoldable pub verify : M VerifyBackupResult
  verify = do
    started ← call clock_call
    time ← call unix_time
    let file = join_path "/tmp" ("verify_" <> cfg.backup_id <> "_" <> itoa time.number <> ".sql.gz")
    finally (remove file) (download_check file (begun cfg started.output))
