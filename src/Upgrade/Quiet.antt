-- ===== src/Upgrade/Quiet.antt =====
-- The checks of health and the first two steps of an upgrade write no file.
use vmkit_agent.Base.{
  ℕ, zero, suc, ◌+◌, ◌/◌, String, Bool, true, false, List, [], ◌∷◌, arith, ltb, ◌==◌, Bool-cases,
  inl, inr,
}
use vmkit_agent.Host.{clock, sleep, stat, Host, Trace, ensure, after-keeps, Outcome-cases}
use vmkit_agent.Backup.Save.Quiet.{Quiet, free_space-Quiet, backup-Quiet}
use vmkit_agent.Backup.Save.{BackupResult, backup}
use vmkit_agent.Health.Round.{
  ServiceHealth, CheckConfig, inspect, suffixes_of, check_container_states, check_services,
  run_health_checks, default_check_config,
}
use vmkit_agent.Health.Laws.{run_health_checks-IsRound}
use vmkit_agent.Health.{final_check, attempts, check_all, wait_time}
use vmkit_agent.Upgrade.Versions.{validate_version_upgrade}
use vmkit_agent.Upgrade.Steps.{
  UpgradeConfig, dir_of, validate, check_space, check_health, save_backup, backup_config,
  backup_answer, is_healthy, unhealthy_text,
}

module _ (host : Host) where
  states-Quiet :
      (subdomain : String) (suffixes : List String) (w : Trace)
      → Quiet host w
      → Quiet host (check_container_states subdomain suffixes host w).1
  unfolding check_container_states
  states-Quiet subdomain [] w h = h
  states-Quiet subdomain (suffix ∷ suffixes) w h =
      let asked = inspect subdomain suffix ∷ w in
      let (o, w') = check_container_states subdomain suffixes host asked in
      let rest : Quiet host w' = states-Quiet subdomain suffixes asked h in
      elim (Outcome-cases o) [ inl (ss, fine) ↦ rw fine rest | inr (e, bad) ↦ rw bad rest ]

  services-Quiet :
      (cfg : CheckConfig) (ss : List ServiceHealth) (w : Trace)
      → Quiet host w
      → Quiet host (check_services cfg ss host w).1
  unfolding check_services
  services-Quiet cfg ss w h = h

  round-Quiet :
      (cfg : CheckConfig) (w : Trace) → Quiet host w → Quiet host (run_health_checks cfg host w).1
  unfolding run_health_checks
  round-Quiet cfg w h =
      let (o, w') = check_container_states cfg.subdomain (suffixes_of cfg) host w in
      let rest = states-Quiet cfg.subdomain (suffixes_of cfg) w h in
      elim (Outcome-cases o) [
        | inl (ss, fine) ↦ rw fine (services-Quiet cfg ss w' rest)
        | inr (e, bad) ↦ rw bad rest
      ]

  final-Quiet :
      (cfg : CheckConfig) (attempt : ℕ) (w : Trace)
      → Quiet host w
      → Quiet host (final_check cfg attempt host w).1
  unfolding final_check
  final-Quiet cfg attempt w h =
      let round = run_health_checks-IsRound cfg host w in rw (round.answers) (round-Quiet cfg w h)

  module _ (cfg : CheckConfig) where
    attempts-Quiet :
        (left deadline attempt : ℕ) (w : Trace)
        → Quiet host w
        → Quiet host (attempts left cfg deadline attempt host w).1
    unfolding attempts
    attempts-Quiet zero deadline attempt w h = final-Quiet cfg attempt (clock ∷ w) h
    attempts-Quiet (suc left) deadline attempt w h =
        let tried = (run_health_checks cfg host (clock ∷ w)).1 in
        let quiet = round-Quiet cfg (clock ∷ w) h in
        let nap = sleep (wait_time cfg (attempt + 1) / 1000000) in
        let round = run_health_checks-IsRound cfg host (clock ∷ w) in
        let waits = ltb ((host clock tried).number + wait_time cfg (attempt + 1)) deadline in
        elim (Bool-cases (ltb (host clock w).number deadline)) [
          | inr late ↦ rw late (final-Quiet cfg attempt (clock ∷ w) h)
          | inl early ↦ elim (Bool-cases round.result.all_healthy) [
            | inl good ↦ rw (early, round.answers, good) quiet
            | inr bad ↦ elim (Bool-cases (left == 0)) [
              | inl last ↦
                  rw (early, round.answers, bad, last)
                    (attempts-Quiet left deadline (attempt + 1) tried quiet)
              | inr more ↦ elim (Bool-cases waits) [
                | inl slept ↦
                    rw (early, round.answers, bad, more, slept)
                      (attempts-Quiet left deadline (attempt + 1) (nap ∷ clock ∷ tried) quiet)
                | inr awake ↦
                    rw (early, round.answers, bad, more, awake)
                      (attempts-Quiet left deadline (attempt + 1) (clock ∷ tried) quiet)
              ]
            ]
          ]
        ]

    check_all-Quiet : (w : Trace) → Quiet host w → Quiet host (check_all cfg host w).1
    unfolding check_all
    check_all-Quiet w h =
        attempts-Quiet cfg.max_retries ((host clock w).number + cfg.timeout) 0 (clock ∷ w) h

  module _ (cfg : UpgradeConfig) where
    ensured : (b : Bool) (e : String) (w : Trace) → Quiet host w → Quiet host (ensure b e host w).1
    ensured true e w h = h
    ensured false e w h = h

    answered-Quiet :
        (r : BackupResult) (w : Trace) → Quiet host w → Quiet host (backup_answer r host w).1
    answered-Quiet r w h = elim (Bool-cases r.success) [
      | inl good ↦ rw good h
      | inr failed ↦ rw failed h
    ]

    health-Quiet :
        (text : String) (w : Trace) → Quiet host w → Quiet host (check_health text cfg host w).1
    unfolding check_health
    health-Quiet text w h =
        let quiet = check_all-Quiet (default_check_config cfg.subdomain) w h in
        let (o, w') = check_all (default_check_config cfg.subdomain) host w in
        after-keeps (Quiet host) host (λ r. ensure (is_healthy r) text) o w' quiet
          (λ r. ensured (is_healthy r) text w' quiet)

    space-Quiet : (w : Trace) → Quiet host w → Quiet host (check_space host w).1
    unfolding check_space
    space-Quiet w h = ground (arith, free_space-Quiet host "/var/lib/docker" w h)

    pub validate-Quiet : (w : Trace) → Quiet host w → Quiet host (validate cfg host w).1
    unfolding validate
    validate-Quiet w h =
        let versions = validate_version_upgrade cfg.current_version cfg.target_version in
        let asked = stat (dir_of cfg) ∷ w in
        let (o, w') = check_space host asked in
        let quiet = space-Quiet asked h in
        let last = check_health unhealthy_text cfg in
        elim (Bool-cases (host (stat (dir_of cfg)) w).not_exist) [
          | inl gone ↦ rw gone h
          | inr there ↦ elim (Outcome-cases versions) [
            | inr (e, bad) ↦ rw (there, bad) h
            | inl (_, newer) ↦
                rw (there, newer)
                  (after-keeps (Quiet host) host (λ _. last) o w' quiet
                    (λ _. health-Quiet unhealthy_text w' quiet))
          ]
        ]

    pub save_backup-Quiet :
        (digest : String → String) (w : Trace)
        → Quiet host w
        → Quiet host (save_backup digest cfg host w).1
    unfolding save_backup
    save_backup-Quiet digest w h =
        let quiet = backup-Quiet host digest (backup_config cfg) w h in
        let (o, w') = backup digest (backup_config cfg) host w in
        after-keeps (Quiet host) host backup_answer o w' quiet (λ r. answered-Quiet r w' quiet)
