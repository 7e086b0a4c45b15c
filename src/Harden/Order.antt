-- ===== src/Harden/Order.antt =====
-- `Harden` allows the SSH port before it enables the firewall.
use vmkit_agent.Base.{
  ℕ, zero, suc, String, Bool, true, [], ◌∷◌, ◌≡◌, refl, arith, eq_iff, ap, ◌∙◌, ◌<>◌, show_int,
}
use vmkit_agent.Host.{Host, Trace, sleep, cmd, ok}
use vmkit_agent.Host.Log.{runs, done, guarded}
use vmkit_agent.Harden.Config.{HardenConfig, HardenResult}
use vmkit_agent.Harden.System.{default_user, preflight_checks, create_backups, configure_user}
use vmkit_agent.Harden.Ssh.{
  configure_ssh, disable_socket, await_active, check_port, restart_and_test_ssh,
}
use vmkit_agent.Harden.Firewall.{
  configure_firewall, install_fail2ban, enable_auto_updates, create_rollback_script, ssh_rule,
}
use vmkit_agent.Harden.Rollback.{rollback, restore_if}
use vmkit_agent.Harden.Steps.{Kept, harden-inv}
use vmkit_agent.Harden.Run.{harden}

default_user-ssh_port : (cfg : HardenConfig) → (default_user cfg).ssh_port ≡ cfg.ssh_port
unfolding default_user
default_user-ssh_port cfg = ground arith

preflight_cfg :
    (cfg cfg' : HardenConfig) (host : Host) (w : Trace)
    → (preflight_checks cfg host w).0 ≡ ok cfg'
    → cfg'.ssh_port ≡ cfg.ssh_port
unfolding preflight_checks
preflight_cfg cfg cfg' host w h = ground (arith, default_user-ssh_port cfg)

module _ (host : Host) (rule : String) where
  -- The firewall was never enabled before the rule was allowed.
  abbrev pub allowed_first : Trace → Bool
  allowed_first =
      guarded (runs ("ufw" ∷ "--force" ∷ "enable" ∷ []))
        (done host (runs ("ufw" ∷ "allow" ∷ rule ∷ [])))

  preflight-allowed_first :
      (cfg : HardenConfig) (w : Trace)
      → allowed_first w ≡ true
      → allowed_first (preflight_checks cfg host w).1 ≡ true
  unfolding preflight_checks
  preflight-allowed_first cfg w h = ground arith

  backups-allowed_first :
      (w : Trace) → allowed_first w ≡ true → allowed_first (create_backups host w).1 ≡ true
  unfolding create_backups
  backups-allowed_first w h = ground arith

  user-allowed_first :
      (cfg : HardenConfig) (w : Trace)
      → allowed_first w ≡ true
      → allowed_first (configure_user cfg host w).1 ≡ true
  unfolding configure_user
  user-allowed_first cfg w h = ground arith

  ssh-allowed_first :
      (cfg : HardenConfig) (w : Trace)
      → allowed_first w ≡ true
      → allowed_first (configure_ssh cfg host w).1 ≡ true
  unfolding configure_ssh
  ssh-allowed_first cfg w h = ground arith

  socket-allowed_first :
      (socket : String) (w : Trace)
      → allowed_first w ≡ true
      → allowed_first (disable_socket socket host w).1 ≡ true
  unfolding disable_socket
  socket-allowed_first socket w h = ground arith

  await-allowed_first :
      (n : ℕ) (service : String) (w : Trace)
      → allowed_first w ≡ true
      → allowed_first (await_active n service host w).1 ≡ true
  unfolding await_active
  await-allowed_first zero service w h = h
  await-allowed_first (suc n) service w h = ground (
    arith,
    await-allowed_first n service
        (sleep 1000 ∷ cmd 5 ("systemctl" ∷ "is-active" ∷ service ∷ []) ∷ w),
  )

  port-allowed_first :
      (cfg : HardenConfig) (w : Trace)
      → allowed_first w ≡ true
      → allowed_first (check_port cfg host w).1 ≡ true
  unfolding check_port
  port-allowed_first cfg w h = ground arith

  restart-allowed_first :
      (cfg : HardenConfig) (w : Trace)
      → allowed_first w ≡ true
      → allowed_first (restart_and_test_ssh cfg host w).1 ≡ true
  unfolding restart_and_test_ssh
  restart-allowed_first cfg w h =
      grind (arith, socket-allowed_first, await-allowed_first, port-allowed_first)

  fail2ban-allowed_first :
      (cfg : HardenConfig) (w : Trace)
      → allowed_first w ≡ true
      → allowed_first (install_fail2ban cfg host w).1 ≡ true
  unfolding install_fail2ban
  fail2ban-allowed_first cfg w h = ground arith

  updates-allowed_first :
      (w : Trace) → allowed_first w ≡ true → allowed_first (enable_auto_updates host w).1 ≡ true
  unfolding enable_auto_updates
  updates-allowed_first w h = ground arith

  script-allowed_first :
      (cfg : HardenConfig) (w : Trace)
      → allowed_first w ≡ true
      → allowed_first (create_rollback_script cfg host w).1 ≡ true
  unfolding create_rollback_script
  script-allowed_first cfg w h = ground arith

  rollback-allowed_first :
      (result : HardenResult) (w : Trace)
      → allowed_first w ≡ true
      → allowed_first (rollback result host w).1 ≡ true
  unfolding rollback restore_if
  rollback-allowed_first result w h = ground arith

  firewall-allowed_first :
      (cfg : HardenConfig) (w : Trace)
      → allowed_first w ≡ true
      → ssh_rule cfg ≡ rule
      → allowed_first (configure_firewall cfg host w).1 ≡ true
  unfolding configure_firewall
  firewall-allowed_first cfg w h e = ground (arith, eq_iff rule (ssh_rule cfg))

  bodies-allowed_first :
      (cfg : HardenConfig) → ssh_rule cfg ≡ rule → Kept host cfg (λ w. allowed_first w ≡ true)
  bodies-allowed_first cfg e = record {
    Q = λ cfg'. ssh_rule cfg' ≡ rule;
    Tested = λ _. Unit {0};
    preflight = preflight-allowed_first cfg;
    known = λ w cfg' h. ap (λ p. show_int p <> "/tcp") (preflight_cfg cfg cfg' host w h) ∙ e;
    backups = backups-allowed_first;
    user = user-allowed_first;
    ssh = ssh-allowed_first;
    tested = λ _ _ _ _. tt;
    restart = λ cfg' w h _. restart-allowed_first cfg' w h;
    firewall = firewall-allowed_first;
    fail2ban = fail2ban-allowed_first;
    updates = updates-allowed_first;
    script = script-allowed_first;
    undone = rollback-allowed_first;
  }

-- Whatever the host answers, and on every path of `Harden`, each `ufw --force enable` is run only
-- after `ufw allow <ssh port>/tcp`, with the port of the configuration, has succeeded.
pub harden-allowed_first :
    (cfg : HardenConfig) (host : Host)
    → allowed_first host (ssh_rule cfg) (harden cfg host []).1 ≡ true
harden-allowed_first cfg host =
    harden-inv host cfg _ (bodies-allowed_first host (ssh_rule cfg) cfg refl) [] refl
