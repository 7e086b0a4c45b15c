-- ===== src/Tests/Hardening.antt =====
-- `Harden` on concrete machines.
use vmkit_agent.Base.{
  String, Bool, true, false, Option, none, some, [], ◌∷◌, ◌≡◌, refl, pos, contains, trim_space,
  show_int,
}
use vmkit_agent.Host.{Host, Trace, Outcome, ok, err}
use vmkit_agent.Host.Log.{runs, made}
use vmkit_agent.Harden.Config.{HardenConfig, HardenResult}
use vmkit_agent.Harden.System.{
  default_user, extra_keys, preflight_checks, create_backups, configure_user, build_authorized_keys,
}
use vmkit_agent.Harden.Ssh.{
  configure_ssh, disable_socket, await_active, check_port, restart_and_test_ssh,
}
use vmkit_agent.Harden.Firewall.{
  configure_firewall, install_fail2ban, enable_auto_updates, create_rollback_script, ssh_rule,
}
use vmkit_agent.Harden.Rollback.{rollback, restore_if}
use vmkit_agent.Harden.Run.{
  conclude, step, optional, script_result, write_script, auto_update_step, fail2ban_step,
  firewall_step, restart_step, ssh_step, user_step, backup_step, harden,
}
use vmkit_agent.Harden.Order.{allowed_first, harden-allowed_first}
use vmkit_agent.Harden.Tested.{tested_first, harden-tested_first}
use vmkit_agent.Harden.Report.{Reports, harden-Reports}
use vmkit_agent.Harden.Keys.{build_authorized_keys-eq-keys_file}
use vmkit_agent.Harden.Refusal.{IsHardenable, harden-IsHardenable}
use vmkit_agent.Tests.Machines.{willing, but}

abbrev config : HardenConfig
config = record {
  vm_user = "";
  ssh_port = pos 2222;
  ssh_public_key = "ssh-ed25519 AAAA";
  extra_authorized_keys = " ssh-rsa BBBB " ∷ "" ∷ [];
  enable_firewall = true;
  enable_fail2ban = true;
  enable_auto_updates = true;
}

hardened : Host → Outcome HardenResult × Trace
unfolding harden contains build_authorized_keys trim_space step conclude optional script_result
    write_script auto_update_step fail2ban_step firewall_step restart_step ssh_step user_step
    backup_step preflight_checks default_user create_backups configure_user extra_keys configure_ssh
    disable_socket await_active check_port restart_and_test_ssh configure_firewall install_fail2ban
    enable_auto_updates create_rollback_script rollback restore_if
hardened host = harden config host []

result_of : Outcome HardenResult → Option HardenResult
result_of (ok r) = some r
result_of (err e) = none

summary : Host → Option (Bool × String × Bool)
unfolding hardened result_of
summary host = elim (result_of (hardened host).0) [
  | some r ↦ some (r.success, r.failed_step, r.rollback_applied)
  | none ↦ none
]

all_well :
    summary (but willing ("systemctl" ∷ "is-active" ∷ "ssh.socket" ∷ [])) ≡ some (true, "", false)
unfolding summary contains build_authorized_keys trim_space show_int
all_well = refl

firewall_runs :
    made
      (runs ("ufw" ∷ "--force" ∷ "enable" ∷ []))
      (hardened (but willing ("systemctl" ∷ "is-active" ∷ "ssh.socket" ∷ []))).1
    ≡ true
unfolding hardened contains build_authorized_keys trim_space show_int
firewall_runs = refl

-- The socket of the first machine never stops.
stuck_socket : summary willing ≡ some (false, "Restart SSH and Validate Connection", true)
unfolding summary contains build_authorized_keys trim_space
stuck_socket = refl

bad_config :
    summary (but willing ("/usr/sbin/sshd" ∷ "-t" ∷ []))
    ≡ some (false, "Configure SSH Security", true)
unfolding summary contains build_authorized_keys trim_space
bad_config = refl

no_user :
    summary (but willing ("visudo" ∷ "-c" ∷ "-f" ∷ "/etc/sudoers.d/supabyoi" ∷ []))
    ≡ some (false, "Configure System User", false)
unfolding summary contains build_authorized_keys trim_space
no_user = refl

harden-allowed_first_example :
    allowed_first willing (ssh_rule config) (harden config willing []).1 ≡ true
harden-allowed_first_example = harden-allowed_first config willing

harden-tested_first_example : tested_first willing (harden config willing []).1 ≡ true
harden-tested_first_example = harden-tested_first config willing

harden-Reports_example : Reports (harden config willing []).0
harden-Reports_example = harden-Reports config willing

keys_example :
    build_authorized_keys "ssh-ed25519 AAAA" (" ssh-rsa BBBB " ∷ "" ∷ [])
    ≡ ok "ssh-ed25519 AAAA\nssh-rsa BBBB\n"
unfolding extra_keys trim_space
keys_example = build_authorized_keys-eq-keys_file "ssh-ed25519 AAAA" (" ssh-rsa BBBB " ∷ "" ∷ [])

harden-IsHardenable_example : IsHardenable config willing
unfolding hardened contains build_authorized_keys trim_space
harden-IsHardenable_example = harden-IsHardenable config willing refl
