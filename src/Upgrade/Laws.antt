-- ===== src/Upgrade/Laws.antt =====
-- What the result of `Upgrade` says.
use vmkit_agent.Base.{
  String, ◌<>◌, Bool, true, false, not, List, [], ◌∷◌, ◌≡◌, refl, is_empty, if◌then◌else◌,
}
use vmkit_agent.Types.Sequence.{IsRun, first_failed, Tells}
use vmkit_agent.Host.{Host, ok}
use vmkit_agent.Stage.Plan.{
  Follows, bind-Follows, then-Follows, stage-Follows, within-Follows, pass-Follows,
  set_extra-Follows, return-Follows, ask-Follows, or_else-Follows, optional-Follows,
}
use vmkit_agent.Stage.Told.{Follows-Tells}
use vmkit_agent.Upgrade.Steps.{UpgradeConfig}
use vmkit_agent.Upgrade.{
  UpgradeResult, backs_up, given_stage, registry_stage, restart_stages, backup_stage, upgrade_flow,
  upgrade,
}

abbrev last_steps : List String
last_steps = "rolling_restart" ∷ "stabilization_wait" ∷ "post_upgrade_health_check" ∷ []

abbrev after_backup : List String
after_backup = "backup_configuration" ∷ "update_configuration" ∷ last_steps

-- The steps of an upgrade, by its configuration
abbrev pub upgrade_plan : UpgradeConfig → List String
upgrade_plan cfg =
    "pre_upgrade_validation"
    ∷ (if backs_up cfg then "create_backup" ∷ after_backup else after_backup)

module _ (cfg : UpgradeConfig) where
  given_stage-Follows :
      (ns : List String) → Follows ("update_configuration" ∷ ns) ns (given_stage cfg)
  unfolding given_stage
  given_stage-Follows ns = then-Follows (or_else-Follows _ _ (within-Follows _)) (pass-Follows _)

  registry_stage-Follows :
      (ns : List String) → Follows ("update_configuration" ∷ ns) ns (registry_stage cfg)
  unfolding registry_stage
  registry_stage-Follows ns =
      bind-Follows (within-Follows _)
        (λ info. then-Follows (or_else-Follows _ _ (within-Follows _)) (pass-Follows _))

  restart_stages-Follows : Follows last_steps [] (restart_stages cfg)
  unfolding restart_stages
  restart_stages-Follows = then-Follows (or_else-Follows _ _ (within-Follows _)) (
      then-Follows (pass-Follows _) (
        then-Follows (ask-Follows _) (
          then-Follows (pass-Follows _) (
            then-Follows (or_else-Follows _ _ (within-Follows _))
              (then-Follows (pass-Follows _) (then-Follows (ask-Follows _) (return-Follows tt)))))))

  configured :
      (b : Bool) (ns : List String)
      → Follows ("update_configuration" ∷ ns) ns (if b then given_stage cfg else registry_stage cfg)
  configured true ns = given_stage-Follows ns
  configured false ns = registry_stage-Follows ns

  module _ (digest : String → String) where
    backup_stage-Follows :
        (ns : List String) → Follows ("create_backup" ∷ ns) ns (backup_stage digest cfg)
    unfolding backup_stage
    backup_stage-Follows ns =
        bind-Follows (within-Follows _) (λ id. then-Follows (set_extra-Follows _) (pass-Follows _))

    upgrade_flow-Follows : Follows (upgrade_plan cfg) [] (upgrade_flow digest cfg)
    unfolding upgrade_flow
    upgrade_flow-Follows = then-Follows (stage-Follows _ _) (
        then-Follows (optional-Follows (backs_up cfg) (backup_stage-Follows _)) (
          then-Follows (stage-Follows _ _) (
            then-Follows (configured (not (is_empty cfg.compose_content)) _)
              restart_stages-Follows)))

    -- Whatever the host answers, `Upgrade` returns a result. Its steps are those of its plan in their
    -- order, all completed, or up to one that failed; the result is a success exactly in the first
    -- case, and in the second it gives the name of the failed step, and its message with a note
    -- after it, which may be empty.
    pub upgrade-Tells :
        (host : Host)
        → (r : UpgradeResult) × (message : String) × (note : String) × ((upgrade digest cfg host
              []).0
            ≡ ok r)
          × (r.error_message ≡ message <> note)
          × IsRun (upgrade_plan cfg) r.steps
          × Tells r.success r.failed_step message (first_failed r.steps)
    unfolding upgrade
    upgrade-Tells host =
        let (run, tells) = Follows-Tells upgrade_flow-Follows _ host [] in
        (_, _, _, refl, refl, run, tells)
