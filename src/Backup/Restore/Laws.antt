-- ===== src/Backup/Restore/Laws.antt =====
-- What the result of `Restore` says.
use vmkit_agent.Base.{String, not, List, [], ◌∷◌, ◌≡◌, refl, is_empty, if◌then◌else◌}
use vmkit_agent.Types.Sequence.{IsRun, first_failed, Tells}
use vmkit_agent.Host.{Host, ok}
use vmkit_agent.Stage.Plan.{
  Follows, bind-Follows, then-Follows, stage-Follows, ask-Follows, deferred-Follows,
  optional-Follows, if-Follows,
}
use vmkit_agent.Stage.Told.{Follows-Tells}
use vmkit_agent.Backup.Restore.Steps.{RestoreConfig}
use vmkit_agent.Backup.Restore.{
  RestoreResult, checks_sum, finish, restore_storage, restore_from, restore_flow, restore,
}

abbrev last_steps : List String
last_steps = "restart_instance" ∷ "health_check" ∷ []

abbrev after_stop : RestoreConfig → List String
after_stop cfg =
    "restore_database"
    ∷ "fix_auth_permissions"
    ∷ (if not (is_empty cfg.storage_download_url)
        then "restore_storage" ∷ last_steps
        else last_steps)

abbrev after_check : RestoreConfig → List String
after_check cfg = if cfg.stop_instance then "stop_instance" ∷ after_stop cfg else after_stop cfg

-- The steps of a restore, by its configuration
abbrev pub restore_plan : RestoreConfig → List String
restore_plan cfg =
    "validate_instance"
    ∷ "download_backup"
    ∷ (if checks_sum cfg then "verify_checksum" ∷ after_check cfg else after_check cfg)

finish-Follows : (dir : String) → Follows last_steps [] (finish dir)
unfolding finish
finish-Follows dir = then-Follows (stage-Follows _ _) (stage-Follows _ _)

restore_storage-Follows :
    (cfg : RestoreConfig) (dir : String)
    → Follows ("restore_storage" ∷ last_steps) [] (restore_storage cfg dir)
unfolding restore_storage
restore_storage-Follows cfg dir =
    bind-Follows (ask-Follows _)
      (λ now. deferred-Follows _ (then-Follows (stage-Follows _ _) (finish-Follows dir)))

module _ (digest : String → String) (cfg : RestoreConfig) where
  restore_from-Follows :
      (dir file : String)
      → Follows
          ("download_backup"
            ∷ (if checks_sum cfg then "verify_checksum" ∷ after_check cfg else after_check cfg))
          []
          (restore_from digest cfg dir file)
  unfolding restore_from
  restore_from-Follows dir file = then-Follows (stage-Follows _ _) (
      then-Follows (optional-Follows (checks_sum cfg) (stage-Follows _ _)) (
        then-Follows (optional-Follows cfg.stop_instance (stage-Follows _ _)) (
          bind-Follows (stage-Follows _ _) (λ id. then-Follows (stage-Follows _ _) (
            if-Follows (not (is_empty cfg.storage_download_url)) (restore_storage-Follows cfg dir)
              (finish-Follows dir))))))

  restore_flow-Follows : Follows (restore_plan cfg) [] (restore_flow digest cfg)
  unfolding restore_flow
  restore_flow-Follows =
      then-Follows (stage-Follows _ _)
        (bind-Follows (ask-Follows _) (λ now. deferred-Follows _ (restore_from-Follows _ _)))

  -- Whatever the host answers, `Restore` returns a result. Its steps are those of its plan in their
  -- order, all completed, or up to one that failed; the result is a success exactly in the first
  -- case, and in the second it gives the name and the message of the failed step.
  pub restore-Tells :
      (host : Host)
      → (r : RestoreResult) × ((restore digest cfg host []).0 ≡ ok r)
        × IsRun (restore_plan cfg) r.steps
        × Tells r.success r.failed_step r.error_message (first_failed r.steps)
  unfolding restore
  restore-Tells host =
      let (run, tells) = Follows-Tells restore_flow-Follows tt host [] in (_, refl, run, tells)
