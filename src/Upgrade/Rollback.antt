-- ===== src/Upgrade/Rollback.antt =====
-- What a failed upgrade leaves of the configuration.
use vmkit_agent.Base.{
  String, Bool, true, false, not, ◌&&◌, ◌||◌, Option, none, some, [], ◌∷◌, ◌≡◌, refl, ◌∙◌, arith,
  ◌==ₛ◌, eq_iff, is_empty,
}
use vmkit_agent.Host.{Call, exec, write_file, best_effort, when, Host, Trace, ok, M}
use vmkit_agent.Host.Log.{runs, made}
use vmkit_agent.Stage.{begin, succeeds}
use vmkit_agent.Stage.Safe.{
  Safe, Sound, Lands, always-Sound, bind-Safe, then-Safe, within-Safe, pass-Safe, set_extra-Safe,
  return-Safe, stage-Safe, ask-Safe, optional-Safe, or_else-Safe, if-Safe,
}
use vmkit_agent.Backup.Save.Quiet.{changes, Quiet}
use vmkit_agent.Compose.{up}
use vmkit_agent.Upgrade.Versions.{VersionInfo, version_registry, find}
use vmkit_agent.Upgrade.Steps.{
  UpgradeConfig, dir_of, compose_of, saved_of, copy_call, validate, save_backup, save_configuration,
  write_given, registered, found_or, pull_and_update, restore_copy, restart, rollback_upgrade,
  check_again,
}
use vmkit_agent.Upgrade.Quiet.{validate-Quiet, save_backup-Quiet}
use vmkit_agent.Upgrade.{
  UpgradeResult, nothing, backs_up, try_rollback, given_stage, registry_stage, restart_stages,
  backup_stage, upgrade_flow, upgrade,
}

module _ (cfg : UpgradeConfig) where
  -- The call writes the compose file.
  abbrev pub overwrites : Call → Bool
  overwrites (write_file path content mode) = path ==ₛ compose_of cfg
  overwrites _ = false

  -- The call copies the saved compose file back.
  abbrev pub copies_back : Call → Bool
  copies_back = runs ("cp" ∷ saved_of cfg ∷ compose_of cfg ∷ [])

  -- The compose file has not been written, or the saved one has been copied back since.
  abbrev pub restored : Trace → Bool
  restored [] = true
  restored (c ∷ w) = copies_back c || (not (overwrites c) && restored w)

  abbrev Restored : Trace → Type 0
  Restored w = restored w ≡ true

  abbrev Any : Trace → Type 0
  Any w = Unit {0}

  quiet-keeps : (c : Call) → changes c ≡ false → overwrites c ≡ false
  quiet-keeps (write_file path content mode) h = cc
  quiet-keeps c h = refl

  kept :
      (copied over rest : Bool) → over ≡ false → rest ≡ true → (copied || (not over && rest)) ≡ true
  kept copied over rest h h' = ground arith

  neither : (a b : Bool) → (a || b) ≡ false → (a ≡ false) × (b ≡ false)
  neither a b h = ground arith

  Quiet-Restored : (host : Host) (w : Trace) → Quiet host w → Restored w
  Quiet-Restored host [] h = refl
  Quiet-Restored host (c ∷ w) h =
      let (calm, rest) = neither (changes c) (made changes w) h in
      kept (copies_back c) (overwrites c) (restored w) (quiet-keeps c calm)
        (Quiet-Restored host w rest)

  module _ (host : Host) (rolls : cfg.rollback_on_failure ≡ true) where
    copied : (w : Trace) → Restored (copy_call (saved_of cfg) (compose_of cfg) ∷ w)
    copied w =
        ground
          (arith, eq_iff (saved_of cfg) (saved_of cfg), eq_iff (compose_of cfg) (compose_of cfg))

    whenever :
        (b : Bool) (m : M (Unit {0})) (w : Trace)
        → b ≡ true
        → Restored (m host w).1
        → Restored (when b m host w).1
    whenever true m w e h = h
    whenever false m w e h = cc

    restore_copy-Restored : (w : Trace) → Any w → Restored (restore_copy cfg host w).1
    unfolding restore_copy
    restore_copy-Restored w h =
        whenever cfg.rollback_on_failure (best_effort (copy_call (saved_of cfg) (compose_of cfg))) w
          rolls (copied w)

    rollback-Restored : (w : Trace) → Restored (rollback_upgrade cfg host w).1
    unfolding rollback_upgrade up
    rollback-Restored w =
        let stopped = exec (dir_of cfg) 0 ("sudo" ∷ "docker" ∷ "compose" ∷ "stop" ∷ []) ∷ w in
        ground (arith, copied stopped)

    try_rollback-Restored : (w : Trace) → Any w → Restored (try_rollback cfg host w).1
    try_rollback-Restored w h =
        whenever cfg.rollback_on_failure (rollback_upgrade cfg) w rolls (rollback-Restored w)

    -- A step whose failure is repaired
    anyway : {A : Type 0} (P : Trace → Type 0) (m : M A) → Sound host P Any Any m
    anyway P m = always-Sound host P Any Any m (λ w h. tt) (λ w h. tt)

    given_stage-Restored : Safe host Restored Any Restored (given_stage cfg)
    unfolding given_stage
    given_stage-Restored =
        then-Safe
          (or_else-Safe _ _ (within-Safe _ _ (anyway Restored (write_given cfg)))
            restore_copy-Restored)
          (pass-Safe _ _)

    found_or-Restored :
        (o : Option VersionInfo)
        → Sound host Restored Restored Restored (found_or cfg.target_version o)
    found_or-Restored (some info) w h = h
    found_or-Restored none w h = h

    registered-Restored : Sound host Restored Restored Restored (registered cfg.target_version)
    unfolding registered
    registered-Restored w h = found_or-Restored (find cfg.target_version version_registry) w h

    registry_stage-Restored : Safe host Restored Any Restored (registry_stage cfg)
    unfolding registry_stage
    registry_stage-Restored = bind-Safe (within-Safe _ _ registered-Restored) (λ info.
        then-Safe
          (or_else-Safe _ _ (within-Safe _ _ (anyway Restored (pull_and_update cfg info)))
            restore_copy-Restored)
          (pass-Safe _ _))

    restart_stages-Restored : Safe host Any Any Restored (restart_stages cfg)
    unfolding restart_stages
    restart_stages-Restored =
        then-Safe {Q = Any}
          (or_else-Safe _ _ (within-Safe _ _ (anyway Any (restart cfg))) try_rollback-Restored)
          (then-Safe (pass-Safe _ _) (
            then-Safe (ask-Safe {Q = Any} _ (λ w h. tt)) (
              then-Safe (pass-Safe _ _) (
                then-Safe {Q = Any}
                  (or_else-Safe _ _ (within-Safe _ _ (anyway Any (check_again cfg)))
                    try_rollback-Restored)
                  (then-Safe (pass-Safe _ _)
                    (then-Safe (ask-Safe {Q = Any} _ (λ w h. tt)) (return-Safe tt)))))))

    saved_quietly : (w : Trace) → Quiet host w → Restored (save_configuration cfg host w).1
    unfolding save_configuration
    saved_quietly w h = ground (arith, Quiet-Restored host w h)

    save_configuration-Restored : Sound host (Quiet host) Restored Restored (save_configuration cfg)
    unfolding save_configuration
    save_configuration-Restored =
        always-Sound host (Quiet host) Restored Restored (save_configuration cfg) (λ w h. h)
          (λ w h. saved_quietly w h)

    module _ (digest : String → String) where
      quietly :
          {A : Type 0} (m : M A)
          → ((w : Trace) → Quiet host w → Quiet host (m host w).1)
          → Sound host (Quiet host) (Quiet host) Restored m
      quietly m h = always-Sound host (Quiet host) (Quiet host) Restored m (Quiet-Restored host) h

      backup_stage-Restored : Safe host (Quiet host) (Quiet host) Restored (backup_stage digest cfg)
      unfolding backup_stage
      backup_stage-Restored =
          bind-Safe
            (within-Safe _ _ (quietly (save_backup digest cfg) (save_backup-Quiet host cfg digest)))
            (λ id. then-Safe (set_extra-Safe _) (pass-Safe _ _))

      upgrade_flow-Restored : Safe host (Quiet host) Any Restored (upgrade_flow digest cfg)
      unfolding upgrade_flow
      upgrade_flow-Restored =
          then-Safe (stage-Safe _ _ _ (quietly (validate cfg) (validate-Quiet host cfg))) (
            then-Safe
              (optional-Safe {Q = Quiet host} (backs_up cfg) (λ _. backup_stage-Restored)
                (λ _ w h. h))
              (then-Safe (stage-Safe _ _ _ save_configuration-Restored) (
                then-Safe
                  (if-Safe (not (is_empty cfg.compose_content)) (λ _. given_stage-Restored)
                    (λ _. registry_stage-Restored))
                  restart_stages-Restored)))

      failure-Restored :
          {A : Type 0} (o : Option A) (w : Trace)
          → Lands o (Any w) (Restored w)
          → succeeds o ≡ false
          → Restored w
      failure-Restored (some a) w h e = cc
      failure-Restored none w h e = h

      -- Whatever the host answers: where a rollback is asked for and `Upgrade` reports a failure, it
      -- has not written the compose file, or it has called for the saved file to be copied back since
      -- it last did.
      pub upgrade-restored :
          {r : UpgradeResult}
          → (upgrade digest cfg host []).0 ≡ ok r
          → r.success ≡ false
          → restored (upgrade digest cfg host []).1 ≡ true
      unfolding upgrade
      upgrade-restored {r} h failed =
          let (o, p, w) = upgrade_flow digest cfg host (begin nothing) [] in
          let said : succeeds o ≡ r.success = cc in
          failure-Restored o w (upgrade_flow-Restored.lands (begin nothing) [] refl) (said ∙ failed)
