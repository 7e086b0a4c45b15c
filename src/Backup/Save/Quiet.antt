-- ===== src/Backup/Save/Quiet.antt =====
-- A backup writes no file by name and copies none: the configuration of the instance stays.
use vmkit_agent.Base.{
  ℕ, String, Bool, true, false, not, ◌&&◌, [], ◌∷◌, ◌≡◌, arith, ◌==ₛ◌, ltb, is_empty, Bool-cases,
  inl, inr,
}
use vmkit_agent.Host.{
  Call, exec, write_file, stat, unix_time, Host, Trace, Outcome, ok, err, M, succeeded,
  Outcome-cases, cmd,
}
use vmkit_agent.Host.Log.{made}
use vmkit_agent.Stage.Safe.{
  Safe, Sound, always-Sound, bind-Safe, then-Safe, within-Safe, pass-Safe, set_extra-Safe,
  return-Safe, stage-Safe, ask-Safe, deferred-Safe, if-Safe, Safe-calls,
}
use vmkit_agent.Backup.Tools.{
  compose_file, asks_container, is_docker_available, get_postgres_container, get_storage_container,
  get_free_disk_space, calculate_file_checksum, upload_file, export_storage_data,
}
use vmkit_agent.Backup.Save.Steps.{
  BackupConfig, dir_of, validate, open_dump, run_dump, checksum, upload, upload_storage,
  after_export, export_from, save_storage,
}
use vmkit_agent.Backup.Save.{
  storage_file, finish, storage_stage, save_dump, dump_stage, backup_flow, backup,
}

abbrev pub changes : Call → Bool
changes (write_file path content mode) = true
changes (exec dir limit (name ∷ args)) = name ==ₛ "cp"
changes _ = false

module _ (host : Host) where
  abbrev pub Quiet : Trace → Type 0
  Quiet w = made changes w ≡ false

  pub free_space-Quiet :
      (path : String) (w : Trace) → Quiet w → Quiet (get_free_disk_space path host w).1
  unfolding get_free_disk_space
  free_space-Quiet path w h = ground arith

  checksum-Quiet :
      (digest : String → String) (file : String) (w : Trace)
      → Quiet w
      → Quiet (calculate_file_checksum digest file host w).1
  unfolding calculate_file_checksum
  checksum-Quiet digest file w h = ground arith

  upload-Quiet : (file url : String) (w : Trace) → Quiet w → Quiet (upload_file file url host w).1
  unfolding upload_file
  upload-Quiet file url w h = ground arith

  export-Quiet :
      (id file : String) (w : Trace) → Quiet w → Quiet (export_storage_data id file host w).1
  unfolding export_storage_data
  export-Quiet id file w h = ground arith

  container-Quiet :
      (dir : String) (w : Trace) → Quiet w → Quiet (get_storage_container dir host w).1
  unfolding get_storage_container
  container-Quiet dir w h = ground arith

  validate-Quiet : (dir : String) (w : Trace) → Quiet w → Quiet (validate dir host w).1
  unfolding validate is_docker_available get_postgres_container
  validate-Quiet dir w h =
      let asked : Trace = stat (compose_file dir) ∷ stat dir ∷ w in
      let known : Trace = asks_container dir "postgres" ∷ cmd 0 ("docker" ∷ "ps" ∷ []) ∷ asked in
      ground (arith, free_space-Quiet "/tmp" known h)

  run_dump-Quiet :
      (container file : String) (w : Trace) → Quiet w → Quiet (run_dump container file host w).1
  unfolding run_dump
  run_dump-Quiet container file w h = ground arith

  module _ (digest : String → String) (cfg : BackupConfig) where
    upload_storage-Quiet :
        (file : String) (size : ℕ) (w : Trace)
        → Quiet w
        → Quiet (upload_storage digest cfg file size host w).1
    upload_storage-Quiet file size w h =
        upload-Quiet file cfg.storage_upload_url (calculate_file_checksum digest file host w).1
          (checksum-Quiet digest file w h)

    after_export-Quiet :
        (file : String) (o : Outcome (Unit {0})) (w : Trace)
        → Quiet w
        → Quiet (after_export digest cfg file o host w).1
    after_export-Quiet file (err e) w h = h
    after_export-Quiet file (ok u) w h =
        let info = host (stat file) w in
        elim (Bool-cases (succeeded info && ltb 100 info.number)) [
          | inl large ↦ rw large (upload_storage-Quiet file info.number (stat file ∷ w) h)
          | inr small ↦ rw small h
        ]

    export_from-Quiet :
        (file : String) (o : Outcome String) (w : Trace)
        → Quiet w
        → Quiet (export_from digest cfg file o host w).1
    export_from-Quiet file (err e) w h = h
    export_from-Quiet file (ok id) w h = elim (Bool-cases (is_empty id)) [
      | inl none ↦ rw none h
      | inr there ↦ rw there (
          let (o, w') = export_storage_data id file host w in
          after_export-Quiet file o w' (export-Quiet id file w h))
    ]

    save_storage-Quiet :
        (dir file : String) (w : Trace)
        → Quiet w
        → Quiet (save_storage digest cfg dir file host w).1
    unfolding save_storage
    save_storage-Quiet dir file w h =
        let (o, w') = get_storage_container dir host w in
        export_from-Quiet file o w' (container-Quiet dir w h)

    sum-Quiet : (file : String) (w : Trace) → Quiet w → Quiet (checksum digest file host w).1
    unfolding checksum
    sum-Quiet file w h =
        let (o, w') = calculate_file_checksum digest file host w in
        elim (Outcome-cases o) [
          | inl (sum, fine) ↦ rw fine (checksum-Quiet digest file w h)
          | inr (e, bad) ↦ rw bad (checksum-Quiet digest file w h)
        ]

    sent-Quiet : (file : String) (w : Trace) → Quiet w → Quiet (upload file cfg.upload_url host w).1
    unfolding upload
    sent-Quiet file w h = ground (arith, upload-Quiet file cfg.upload_url w h)

    open_dump-Quiet :
        (container file : String) (w : Trace) → Quiet w → Quiet (open_dump container file host w).1
    unfolding open_dump
    open_dump-Quiet container file w h = ground arith

    always :
        {A : Type 0} (m : M A)
        → ((w : Trace) → Quiet w → Quiet (m host w).1)
        → Sound host Quiet Quiet Quiet m
    always m h = always-Sound host Quiet Quiet Quiet m (λ w q. q) h

    finish-Quiet : Safe host Quiet Quiet Quiet (finish cfg)
    unfolding finish
    finish-Quiet =
        then-Safe (set_extra-Safe _)
          (bind-Safe (ask-Safe unix_time (λ w h. h)) (λ time. return-Safe _))

    storage_stage-Quiet :
        (dir : String) → Safe host Quiet Quiet Quiet (storage_stage digest cfg dir)
    unfolding storage_stage
    storage_stage-Quiet dir = bind-Safe (ask-Safe unix_time (λ w h. h)) (λ time.
        deferred-Safe _ (λ w h. h) (λ w h. h)
          (bind-Safe
            (within-Safe _ _ (
              always (save_storage digest cfg dir (storage_file cfg time))
                (save_storage-Quiet dir (storage_file cfg time))))
            (λ saved. then-Safe (set_extra-Safe _) (then-Safe (pass-Safe _ _) finish-Quiet))))

    save_dump-Quiet :
        (dir file : String) → Safe host Quiet Quiet Quiet (save_dump digest cfg dir file)
    unfolding save_dump
    save_dump-Quiet dir file =
        bind-Safe (within-Safe _ _ (always (checksum digest file) (sum-Quiet file))) (λ sum.
          then-Safe (set_extra-Safe _) (
            then-Safe (pass-Safe _ _) (
              then-Safe (stage-Safe _ _ _ (always (upload file cfg.upload_url) (sent-Quiet file))) (
                if-Safe (cfg.include_storage && not (is_empty cfg.storage_upload_url))
                  (λ _. storage_stage-Quiet dir) (λ _. finish-Quiet)))))

    dump_stage-Quiet :
        (dir container file : String)
        → Safe host Quiet Quiet Quiet (dump_stage digest cfg dir container file)
    unfolding dump_stage
    dump_stage-Quiet dir container file =
        then-Safe
          (within-Safe _ _ (always (open_dump container file) (open_dump-Quiet container file)))
          (deferred-Safe _ (λ w h. h) (λ w h. h)
            (bind-Safe
              (within-Safe _ _ (always (run_dump container file) (run_dump-Quiet container file)))
              (λ size.
                then-Safe (set_extra-Safe _)
                  (then-Safe (pass-Safe _ _) (save_dump-Quiet dir file)))))

    backup_flow-Quiet : Safe host Quiet Quiet Quiet (backup_flow digest cfg)
    unfolding backup_flow
    backup_flow-Quiet =
        bind-Safe (stage-Safe _ _ _ (always (validate (dir_of cfg)) (validate-Quiet (dir_of cfg))))
          (λ container. bind-Safe (ask-Safe unix_time (λ w h. h)) (λ time.
            deferred-Safe _ (λ w h. h) (λ w h. h) (dump_stage-Quiet (dir_of cfg) container _)))

    pub backup-Quiet : (w : Trace) → Quiet w → Quiet (backup digest cfg host w).1
    unfolding backup
    backup-Quiet w h = Safe-calls backup_flow-Quiet (λ w q. q) _ _ h
