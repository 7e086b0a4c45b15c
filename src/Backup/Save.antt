-- ===== src/Backup/Save.antt =====
-- `Backup` of internal/backup/backup.go.
pub mod Steps
pub mod Laws
pub mod Quiet
use vmkit_agent.Base.{
  ℕ, String, ◌<>◌, Bool, true, false, not, ◌&&◌, Option, none, some, List, [], ◌∷◌, is_empty,
  join_path, itoa, if◌then◌else◌,
}
use vmkit_agent.Types.{StepResult}
use vmkit_agent.Host.{remove, close_file, unix_time, now, Call, Reply, Host, Trace, Outcome, ok, M}
use vmkit_agent.Stage.{
  Flow, Progress, ◌>>=◌, ◌>>◌, return, ask, set_extra, pass, within, stage, deferred, begin,
  succeeds,
}
use vmkit_agent.Backup.Save.Steps.{
  BackupConfig, BackupMetadata, dir_of, validate, dump_argv, open_dump, run_dump, checksum, upload,
  save_storage,
}

pub record BackupResult : Type 0 where
  pub success : Bool
  pub backup_id : String
  pub instance_id : String
  pub steps : List StepResult
  pub metadata : BackupMetadata
  pub error_message : String
  pub failed_step : String

-- The end of `Backup`, which gives the identifier of the backup
unfoldable pub finish : BackupConfig → Flow BackupMetadata String
finish cfg = do
  set_extra (λ m. record m { status = "completed" })
  time ← ask unix_time
  return ("backup_" <> cfg.subdomain <> "_" <> itoa time.number)

abbrev pub storage_file : BackupConfig → Reply → String
storage_file cfg time =
    join_path "/tmp" (cfg.subdomain <> "_storage_" <> itoa time.number <> ".tar.gz")

-- SHA-256 as a hexadecimal text
module _ (digest : String → String) where
  unfoldable pub storage_stage : BackupConfig → String → Flow BackupMetadata String
  storage_stage cfg dir = do
    time ← ask unix_time
    let file = storage_file cfg time
    deferred (remove file) (do
      saved ← within "backup_storage" (save_storage digest cfg dir file)
      set_extra saved.1
      pass "backup_storage" saved.0
      finish cfg)

  unfoldable pub save_dump : BackupConfig → String → String → Flow BackupMetadata String
  save_dump cfg dir file = do
    sum ← within "calculate_checksum" (checksum digest file)
    set_extra (λ m. record m { checksum = sum })
    pass "calculate_checksum" ("Checksum: " <> sum)
    stage "upload_database" (λ note. note) (upload file cfg.upload_url)
    if cfg.include_storage && not (is_empty cfg.storage_upload_url)
        then storage_stage cfg dir
        else finish cfg

  unfoldable pub dump_stage : BackupConfig → String → String → String → Flow BackupMetadata String
  dump_stage cfg dir container file = do
    within "create_dump" (open_dump container file)
    deferred (close_file file) (do
      size ← within "create_dump" (run_dump container file)
      set_extra (λ m. record m { size_bytes = size })
      pass "create_dump" ("Database dump created: " <> itoa size <> " bytes")
      save_dump cfg dir file)

  unfoldable pub backup_flow : BackupConfig → Flow BackupMetadata String
  backup_flow cfg = do
    let dir = dir_of cfg
    container ← stage "validate_instance" (λ _. "Instance validation successful") (validate dir)
    time ← ask unix_time
    let file = join_path "/tmp" (cfg.subdomain <> "_backup_" <> itoa time.number <> ".sql.gz")
    deferred (remove file) (dump_stage cfg dir container file)

  abbrev begun : BackupConfig → String → BackupMetadata
  begun cfg time = record {
    backup_id = "";
    instance_id = cfg.instance_id;
    subdomain = cfg.subdomain;
    supabase_version = "";
    timestamp = time;
    size_bytes = 0;
    checksum = "";
    storage_size_bytes = 0;
    storage_checksum = "";
    status = "in_progress";
  }

  abbrev id_of : Option String → String
  id_of none = ""
  id_of (some id) = id

  abbrev clock_call : Call
  clock_call = now "2006-01-02T15:04:05Z07:00"

  unfoldable pub backup : BackupConfig → M BackupResult
  unfolding backup_flow
  backup cfg host w =
      let time = (host clock_call w).output in
      let (o, p, w') = backup_flow cfg host (begin (begun cfg time)) (clock_call ∷ w) in
      (
        ok (record {
          success = succeeds o;
          backup_id = id_of o;
          instance_id = cfg.instance_id;
          steps = p.steps;
          metadata = p.extra;
          error_message = p.error_message;
          failed_step = p.failed_step;
        }),
        w',
      )
