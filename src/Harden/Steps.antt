-- ===== src/Harden/Steps.antt =====
-- The rule for one step of `Harden`: an invariant of the calls that the step's body and the
-- rollback keep, and that the following steps keep after what the body has established.
use vmkit_agent.Base.{String, Bool, true, false, ◌≡◌, refl}
use vmkit_agent.Host.{Host, Trace, Outcome, ok, err, M}
use vmkit_agent.Harden.Config.{HardenConfig, HardenResult}
use vmkit_agent.Harden.Rollback.{rollback}
use vmkit_agent.Harden.System.{preflight_checks, create_backups, configure_user}
use vmkit_agent.Harden.Ssh.{configure_ssh, restart_and_test_ssh}
use vmkit_agent.Harden.Firewall.{
  configure_firewall, install_fail2ban, enable_auto_updates, create_rollback_script,
}
use vmkit_agent.Harden.Run.{
  conclude, step, optional, write_script, auto_update_step, fail2ban_step, firewall_step,
  restart_step, ssh_step, user_step, backup_step, harden,
}

module _ (host : Host) (I : Trace → Type 0)
    (undone : (result : HardenResult) (w : Trace) → I w → I (rollback result host w).1) where
  conclude-inv :
      {A : Type 0} (undo : Bool) (name note : String) (next : A → HardenResult → M HardenResult)
      (result : HardenResult) (r : Outcome A) (w : Trace)
      → I w
      → ((a : A) (result' : HardenResult) → r ≡ ok a → I (next a result' host w).1)
      → I (conclude name undo note next result r host w).1
  unfolding conclude
  conclude-inv undo name note next result (ok a) w i k = k a _ refl
  conclude-inv true name note next result (err e) w i k = undone _ w i
  conclude-inv false name note next result (err e) w i k = i

  pub step-inv :
      {A : Type 0} (Pre : Trace → Type 0) (Post : A → Trace → Type 0) (body : M A)
      → ((w : Trace) → I w → Pre w → I (body host w).1)
      → ((w : Trace) (a : A) → Pre w → (body host w).0 ≡ ok a → Post a (body host w).1)
      → (next : A → HardenResult → M HardenResult)
      → ((a : A) (result : HardenResult) (w : Trace) → I w → Post a w → I (next a result host w).1)
      → (name note : String) (undo : Bool) (result : HardenResult) (w : Trace) → I w
      → Pre w
      → I (step name undo body note next result host w).1
  unfolding step
  step-inv Pre Post body keeps post next later name note undo result w i p =
      conclude-inv undo name note next result (body host w).0 (body host w).1 (keeps w i p)
        λ a result' e. later a result' _ (keeps w i p) (post w a p e)

-- What the bodies of the steps keep, from which the whole of `Harden` keeps it. `Q` is what the
-- later steps know of the configuration, and `Tested` what the SSH step leaves for the restart.
pub record Kept (host : Host) (cfg : HardenConfig) (I : Trace → Type 0) : Type 1 where
  pub Q : HardenConfig → Type 0
  pub Tested : Trace → Type 0
  pub preflight : (w : Trace) → I w → I (preflight_checks cfg host w).1
  pub known : (w : Trace) (cfg' : HardenConfig) → (preflight_checks cfg host w).0 ≡ ok cfg' → Q cfg'
  pub backups : (w : Trace) → I w → I (create_backups host w).1
  pub user : (cfg' : HardenConfig) (w : Trace) → I w → I (configure_user cfg' host w).1
  pub ssh : (cfg' : HardenConfig) (w : Trace) → I w → I (configure_ssh cfg' host w).1
  pub tested :
      (cfg' : HardenConfig) (w : Trace) (a : Unit {0})
      → (configure_ssh cfg' host w).0 ≡ ok a
      → Tested (configure_ssh cfg' host w).1
  pub restart :
      (cfg' : HardenConfig) (w : Trace) → I w → Tested w → I (restart_and_test_ssh cfg' host w).1
  pub firewall :
      (cfg' : HardenConfig) (w : Trace) → I w → Q cfg' → I (configure_firewall cfg' host w).1
  pub fail2ban : (cfg' : HardenConfig) (w : Trace) → I w → I (install_fail2ban cfg' host w).1
  pub updates : (w : Trace) → I w → I (enable_auto_updates host w).1
  pub script : (cfg' : HardenConfig) (w : Trace) → I w → I (create_rollback_script cfg' host w).1
  pub undone : (result : HardenResult) (w : Trace) → I w → I (rollback result host w).1

module _ (host : Host) (cfg : HardenConfig) (I : Trace → Type 0) (K : Kept host cfg I) where
  plain :
      {A : Type 0} (body : M A)
      → ((w : Trace) → I w → I (body host w).1)
      → (next : A → HardenResult → M HardenResult)
      → ((a : A) (result : HardenResult) (w : Trace) → I w → I (next a result host w).1)
      → (name note : String) (undo : Bool) (result : HardenResult) (w : Trace) → I w
      → I (step name undo body note next result host w).1
  plain body keeps next later name note undo result w i =
      step-inv host I K.undone (λ _. Unit {0}) (λ _ _. Unit {0}) body (λ w i _. keeps w i)
        (λ w a _ _. tt) next (λ a result w i _. later a result w i) name note undo result w i tt

  optional-inv :
      (b : Bool) (f g : HardenResult → M HardenResult) (result : HardenResult) (w : Trace)
      → I (f result host w).1
      → I (g result host w).1
      → I (optional b f g result host w).1
  unfolding optional
  optional-inv true f g result w x y = x
  optional-inv false f g result w x y = y

  module _ (cfg' : HardenConfig) (q : K.Q cfg') where
    write_script-inv :
        (result : HardenResult) (w : Trace) → I w → I (write_script cfg' result host w).1
    unfolding write_script
    write_script-inv result w i = K.script cfg' w i

    auto_update_step-inv :
        (result : HardenResult) (w : Trace) → I w → I (auto_update_step cfg' result host w).1
    unfolding auto_update_step
    auto_update_step-inv result w i =
        optional-inv cfg'.enable_auto_updates _ _ result w
          (plain enable_auto_updates K.updates _ (λ _. write_script-inv) _ _ _ result w i)
          (write_script-inv result w i)

    fail2ban_step-inv :
        (result : HardenResult) (w : Trace) → I w → I (fail2ban_step cfg' result host w).1
    unfolding fail2ban_step
    fail2ban_step-inv result w i =
        optional-inv cfg'.enable_fail2ban _ _ result w
          (plain (install_fail2ban cfg') (K.fail2ban cfg') _ (λ _. auto_update_step-inv) _ _ _
            result w i)
          (auto_update_step-inv result w i)

    firewall_step-inv :
        (result : HardenResult) (w : Trace) → I w → I (firewall_step cfg' result host w).1
    unfolding firewall_step
    firewall_step-inv result w i =
        optional-inv cfg'.enable_firewall _ _ result w
          (plain (configure_firewall cfg') (λ w i. K.firewall cfg' w i q) _ (λ _. fail2ban_step-inv)
            _ _ _ result w i)
          (fail2ban_step-inv result w i)

    restart_step-inv :
        (result : HardenResult) (w : Trace)
        → I w
        → K.Tested w
        → I (restart_step cfg' result host w).1
    unfolding restart_step
    restart_step-inv result w i t =
        step-inv host I K.undone K.Tested (λ _ _. Unit {0}) (restart_and_test_ssh cfg')
          (K.restart cfg') (λ w a _ _. tt) _ (λ _ result w i _. firewall_step-inv result w i) _ _ _
          result w i t

    ssh_step-inv : (result : HardenResult) (w : Trace) → I w → I (ssh_step cfg' result host w).1
    unfolding ssh_step
    ssh_step-inv result w i =
        step-inv host I K.undone (λ _. Unit {0}) (λ _. K.Tested) (configure_ssh cfg')
          (λ w i _. K.ssh cfg' w i) (λ w a _ e. K.tested cfg' w a e) _
          (λ _ result w i t. restart_step-inv result w i t) _ _ _ result w i tt

    user_step-inv : (result : HardenResult) (w : Trace) → I w → I (user_step cfg' result host w).1
    unfolding user_step
    user_step-inv result w i =
        plain (configure_user cfg') (K.user cfg') _ (λ _. ssh_step-inv) _ _ _ result w i

    backup_step-inv :
        (result : HardenResult) (w : Trace) → I w → I (backup_step cfg' result host w).1
    unfolding backup_step
    backup_step-inv result w i =
        plain create_backups K.backups _ (λ _. user_step-inv) _ _ _ result w i

  pub harden-inv : (w : Trace) → I w → I (harden cfg host w).1
  unfolding harden
  harden-inv w i =
      step-inv host I K.undone (λ _. Unit {0}) (λ cfg' _. K.Q cfg') (preflight_checks cfg)
        (λ w i _. K.preflight w i) (λ w cfg' _ e. K.known w cfg' e) _
        (λ cfg' result w i q. backup_step-inv cfg' q result w i) _ _ _ _ w i tt
