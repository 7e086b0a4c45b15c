-- ===== src/Harden/Tested.antt =====
-- `Harden` restarts SSH only on a configuration that `sshd -t` has accepted since it was written.
use vmkit_agent.Base.{
  ℕ, zero, suc, String, Bool, true, false, [], ◌∷◌, ◌≡◌, refl, arith, ◌==ₛ◌, not, ◌&&◌, ◌||◌,
}
use vmkit_agent.Host.{Call, write_file, Host, Trace, sleep, cmd, ok, succeeded}
use vmkit_agent.Host.Log.{runs, guarded}
use vmkit_agent.Harden.Config.{HardenConfig, HardenResult, sshd_config_file}
use vmkit_agent.Harden.System.{preflight_checks, create_backups, configure_user}
use vmkit_agent.Harden.Ssh.{
  configure_ssh, disable_socket, await_active, check_port, restart_and_test_ssh,
}
use vmkit_agent.Harden.Firewall.{
  configure_firewall, install_fail2ban, enable_auto_updates, create_rollback_script,
}
use vmkit_agent.Harden.Rollback.{rollback, restore_if}
use vmkit_agent.Harden.Steps.{Kept, harden-inv}
use vmkit_agent.Harden.Run.{harden}

-- The configuration file is written anew.
abbrev pub writes_config : Call → Bool
writes_config (write_file path content mode) = path ==ₛ sshd_config_file
writes_config _ = false

-- `sshd -t` has succeeded, and the configuration file was not written after that.
abbrev pub tested : Host → Trace → Bool
tested host [] = false
tested host (c ∷ w) =
    not (writes_config c)
    && ((runs ("/usr/sbin/sshd" ∷ "-t" ∷ []) c && succeeded (host c w)) || tested host w)

abbrev pub restarts_ssh : Call → Bool
restarts_ssh c =
    runs ("systemctl" ∷ "restart" ∷ "ssh" ∷ []) c || runs ("systemctl" ∷ "restart" ∷ "sshd" ∷ []) c

module _ (host : Host) where
  abbrev pub tested_first : Trace → Bool
  tested_first = guarded restarts_ssh (tested host)

  preflight-tested_first :
      (cfg : HardenConfig) (w : Trace)
      → tested_first w ≡ true
      → tested_first (preflight_checks cfg host w).1 ≡ true
  unfolding preflight_checks
  preflight-tested_first cfg w h = ground arith

  backups-tested_first :
      (w : Trace) → tested_first w ≡ true → tested_first (create_backups host w).1 ≡ true
  unfolding create_backups
  backups-tested_first w h = ground arith

  user-tested_first :
      (cfg : HardenConfig) (w : Trace)
      → tested_first w ≡ true
      → tested_first (configure_user cfg host w).1 ≡ true
  unfolding configure_user
  user-tested_first cfg w h = ground arith

  ssh-tested_first :
      (cfg : HardenConfig) (w : Trace)
      → tested_first w ≡ true
      → tested_first (configure_ssh cfg host w).1 ≡ true
  unfolding configure_ssh
  ssh-tested_first cfg w h = ground arith

  socket-tested_first :
      (socket : String) (w : Trace)
      → tested_first w ≡ true
      → tested host w ≡ true
      → let (r, w') = disable_socket socket host w in
        (tested_first w' ≡ true) × (tested host w' ≡ true)
  unfolding disable_socket
  socket-tested_first socket w h t = ground arith

  await-tested_first :
      (n : ℕ) (service : String) (w : Trace)
      → tested_first w ≡ true
      → tested_first (await_active n service host w).1 ≡ true
  unfolding await_active
  await-tested_first zero service w h = h
  await-tested_first (suc n) service w h = ground (
    arith,
    await-tested_first n service
        (sleep 1000 ∷ cmd 5 ("systemctl" ∷ "is-active" ∷ service ∷ []) ∷ w),
  )

  port-tested_first :
      (cfg : HardenConfig) (w : Trace)
      → tested_first w ≡ true
      → tested_first (check_port cfg host w).1 ≡ true
  unfolding check_port
  port-tested_first cfg w h = ground arith

  restart-tested_first :
      (cfg : HardenConfig) (w : Trace)
      → tested_first w ≡ true
      → tested host w ≡ true
      → tested_first (restart_and_test_ssh cfg host w).1 ≡ true
  unfolding restart_and_test_ssh
  restart-tested_first cfg w h t =
      grind (arith, socket-tested_first, await-tested_first, port-tested_first)

  ssh_tested :
      (cfg : HardenConfig) (w : Trace) (a : Unit {0})
      → (configure_ssh cfg host w).0 ≡ ok a
      → tested host (configure_ssh cfg host w).1 ≡ true
  unfolding configure_ssh
  ssh_tested cfg w a h = ground arith

  fail2ban-tested_first :
      (cfg : HardenConfig) (w : Trace)
      → tested_first w ≡ true
      → tested_first (install_fail2ban cfg host w).1 ≡ true
  unfolding install_fail2ban
  fail2ban-tested_first cfg w h = ground arith

  updates-tested_first :
      (w : Trace) → tested_first w ≡ true → tested_first (enable_auto_updates host w).1 ≡ true
  unfolding enable_auto_updates
  updates-tested_first w h = ground arith

  script-tested_first :
      (cfg : HardenConfig) (w : Trace)
      → tested_first w ≡ true
      → tested_first (create_rollback_script cfg host w).1 ≡ true
  unfolding create_rollback_script
  script-tested_first cfg w h = ground arith

  rollback-tested_first :
      (result : HardenResult) (w : Trace)
      → tested_first w ≡ true
      → tested_first (rollback result host w).1 ≡ true
  unfolding rollback restore_if
  rollback-tested_first result w h = ground arith

  firewall-tested_first :
      (cfg : HardenConfig) (w : Trace)
      → tested_first w ≡ true
      → tested_first (configure_firewall cfg host w).1 ≡ true
  unfolding configure_firewall
  firewall-tested_first cfg w h = ground arith

  bodies-tested_first : (cfg : HardenConfig) → Kept host cfg (λ w. tested_first w ≡ true)
  bodies-tested_first cfg = record {
    Q = λ _. Unit {0};
    Tested = λ w. tested host w ≡ true;
    preflight = preflight-tested_first cfg;
    known = λ _ _ _. tt;
    backups = backups-tested_first;
    user = user-tested_first;
    ssh = ssh-tested_first;
    tested = ssh_tested;
    restart = restart-tested_first;
    firewall = λ cfg' w h _. firewall-tested_first cfg' w h;
    fail2ban = fail2ban-tested_first;
    updates = updates-tested_first;
    script = script-tested_first;
    undone = rollback-tested_first;
  }

-- Whatever the host answers, and on every path of `Harden`, SSH is restarted only when `sshd -t`
-- has succeeded and the hardened configuration file has not been written since.
pub harden-tested_first :
    (cfg : HardenConfig) (host : Host) → tested_first host (harden cfg host []).1 ≡ true
harden-tested_first cfg host = harden-inv host cfg _ (bodies-tested_first host cfg) [] refl
