-- ===== src/Backup/Save/Laws.antt =====
-- What the result of `Backup` says.
use vmkit_agent.Base.{String, Bool, not, ◌&&◌, List, [], ◌∷◌, ◌≡◌, refl, is_empty, if◌then◌else◌}
use vmkit_agent.Types.Sequence.{IsRun, first_failed, Tells}
use vmkit_agent.Host.{Host, ok}
use vmkit_agent.Stage.Plan.{
  Follows, bind-Follows, then-Follows, stage-Follows, within-Follows, pass-Follows,
  set_extra-Follows, return-Follows, ask-Follows, deferred-Follows, if-Follows,
}
use vmkit_agent.Stage.Told.{Follows-Tells}
use vmkit_agent.Backup.Save.Steps.{BackupConfig, dir_of}
use vmkit_agent.Backup.Save.{
  BackupResult, finish, storage_stage, save_dump, dump_stage, backup_flow, backup,
}

-- The steps of a backup, by its configuration
abbrev pub saves_storage : BackupConfig → Bool
saves_storage cfg = cfg.include_storage && not (is_empty cfg.storage_upload_url)

abbrev pub backup_plan : BackupConfig → List String
backup_plan cfg =
    "validate_instance"
    ∷ "create_dump"
    ∷ "calculate_checksum"
    ∷ "upload_database"
    ∷ (if saves_storage cfg then "backup_storage" ∷ [] else [])

finish-Follows : (cfg : BackupConfig) → Follows [] [] (finish cfg)
unfolding finish
finish-Follows cfg =
    then-Follows (set_extra-Follows _) (bind-Follows (ask-Follows _) (λ time. return-Follows _))

module _ (digest : String → String) (cfg : BackupConfig) (dir : String) where
  storage_stage-Follows : Follows ("backup_storage" ∷ []) [] (storage_stage digest cfg dir)
  unfolding storage_stage
  storage_stage-Follows = bind-Follows (ask-Follows _) (λ time. deferred-Follows _ (
      bind-Follows (within-Follows _) (λ saved.
        then-Follows (set_extra-Follows _) (then-Follows (pass-Follows _) (finish-Follows cfg)))))

  save_dump-Follows :
      (file : String)
      → Follows
          ("calculate_checksum"
            ∷ "upload_database"
            ∷ (if saves_storage cfg then "backup_storage" ∷ [] else []))
          []
          (save_dump digest cfg dir file)
  unfolding save_dump
  save_dump-Follows file = bind-Follows (within-Follows _) (λ sum.
      then-Follows (set_extra-Follows _) (
        then-Follows (pass-Follows _) (
          then-Follows (stage-Follows _ _)
            (if-Follows (saves_storage cfg) storage_stage-Follows (finish-Follows cfg)))))

  dump_stage-Follows :
      (container file : String)
      → Follows
          ("create_dump"
            ∷ "calculate_checksum"
            ∷ "upload_database"
            ∷ (if saves_storage cfg then "backup_storage" ∷ [] else []))
          []
          (dump_stage digest cfg dir container file)
  unfolding dump_stage
  dump_stage-Follows container file = then-Follows (within-Follows _) (
      deferred-Follows _ (
        bind-Follows (within-Follows _) (λ size.
          then-Follows (set_extra-Follows _)
            (then-Follows (pass-Follows _) (save_dump-Follows file)))))

module _ (digest : String → String) (cfg : BackupConfig) where
  backup_flow-Follows : Follows (backup_plan cfg) [] (backup_flow digest cfg)
  unfolding backup_flow
  backup_flow-Follows = bind-Follows (stage-Follows _ _) (λ container.
      bind-Follows (ask-Follows _)
        (λ time. deferred-Follows _ (dump_stage-Follows digest cfg (dir_of cfg) container _)))

  -- Whatever the host answers, `Backup` returns a result. Its steps are those of its plan in their
  -- order, all completed, or up to one that failed; the result is a success exactly in the first
  -- case, and in the second it gives the name and the message of the failed step.
  pub backup-Tells :
      (host : Host)
      → (r : BackupResult) × ((backup digest cfg host []).0 ≡ ok r)
        × IsRun (backup_plan cfg) r.steps
        × Tells r.success r.failed_step r.error_message (first_failed r.steps)
  unfolding backup
  backup-Tells host =
      let (run, tells) = Follows-Tells backup_flow-Follows _ host _ in (_, refl, run, tells)
