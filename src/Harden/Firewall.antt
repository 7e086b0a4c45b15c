-- ===== src/Harden/Firewall.antt =====
-- `configureFirewall`, `installFail2Ban`, `enableAutoUpdates` and `createRollbackScript`
use vmkit_agent.Base.{String, ◌<>◌, not, ◌&&◌, [], ◌∷◌, contains, show_int}
use vmkit_agent.Host.{
  Call, stat, write_file, M, ◌>>=◌, ◌>>◌, return, ensure, call, require, when, best_effort,
  succeeded, cmd, message,
}
use vmkit_agent.Harden.Config.{
  HardenConfig, backup_dir, sshd_config_file, rollback_script_path, jail_file,
}

-- A package is installed if its command is not found.
install_package : String → String → String → M (Unit {0})
install_package command package_name label = do
  found ← call (cmd 5 ("which" ∷ command ∷ []))
  when (not (succeeded found)) (do
    best_effort (cmd 60 ("apt-get" ∷ "update" ∷ []))
    require (cmd 120 ("apt-get" ∷ "install" ∷ "-y" ∷ package_name ∷ []))
        (message ("failed to install " <> label <> ": "))
    return tt)

abbrev pub ssh_rule : HardenConfig → String
ssh_rule cfg = show_int cfg.ssh_port <> "/tcp"

abbrev pub allow_ssh : HardenConfig → Call
allow_ssh cfg = cmd 15 ("ufw" ∷ "allow" ∷ ssh_rule cfg ∷ [])

abbrev pub deny_incoming : Call
deny_incoming = cmd 15 ("ufw" ∷ "default" ∷ "deny" ∷ "incoming" ∷ [])

abbrev pub enable_ufw : Call
enable_ufw = cmd 30 ("ufw" ∷ "--force" ∷ "enable" ∷ [])

-- the calls that set the rules and turn the firewall on
raise_firewall : HardenConfig → M (Unit {0})
raise_firewall cfg = do
  require (allow_ssh cfg) (message "failed to allow SSH port: ")
  best_effort (cmd 15 ("ufw" ∷ "allow" ∷ "80/tcp" ∷ []))
  best_effort (cmd 15 ("ufw" ∷ "allow" ∷ "443/tcp" ∷ []))
  require deny_incoming (message "failed to set default deny: ")
  require (cmd 15 ("ufw" ∷ "default" ∷ "allow" ∷ "outgoing" ∷ []))
      (message "failed to set default allow outgoing: ")
  require enable_ufw (message "failed to enable UFW: ")
  return tt

-- the checks after it
check_firewall : HardenConfig → M (Unit {0})
check_firewall cfg = do
  status ← require (cmd 10 ("ufw" ∷ "status" ∷ [])) (message "failed to check UFW status: ")
  ensure (contains status.output "Status: active") "UFW is not active after enabling"
  ensure (contains status.output (ssh_rule cfg))
      ("SSH port " <> show_int cfg.ssh_port <> " is not allowed in UFW")

unfoldable pub configure_firewall : HardenConfig → M (Unit {0})
unfolding install_package raise_firewall check_firewall
configure_firewall cfg = do
  install_package "ufw" "ufw" "UFW"
  raise_firewall cfg
  check_firewall cfg

jail_config : HardenConfig → String
jail_config cfg =
    "[sshd]\nenabled = true\nport = "
    <> show_int cfg.ssh_port
    <> "\nfilter = sshd\nlogpath = /var/log/auth.log\nmaxretry = 3\nbantime = 3600\nfindtime = 600\n"

unfoldable pub install_fail2ban : HardenConfig → M (Unit {0})
unfolding install_package jail_config
install_fail2ban cfg = do
  install_package "fail2ban-client" "fail2ban" "fail2ban"
  require (write_file jail_file (jail_config cfg) 0o644)
      (message "failed to write fail2ban config: ")
  require (cmd 30 ("systemctl" ∷ "restart" ∷ "fail2ban" ∷ []))
      (message "failed to restart fail2ban: ")
  require (cmd 15 ("systemctl" ∷ "enable" ∷ "fail2ban" ∷ []))
      (message "failed to enable fail2ban: ")
  return tt

abbrev auto_upgrade_config : String
auto_upgrade_config =
    "APT::Periodic::Update-Package-Lists \"1\";\nAPT::Periodic::Unattended-Upgrade \"1\";\nAPT::Periodic::AutocleanInterval \"7\";\n"

abbrev unattended_config : String
unattended_config =
    "Unattended-Upgrade::Allowed-Origins {\n    \"${distro_id}:${distro_codename}-security\";\n};\nUnattended-Upgrade::AutoFixInterruptedDpkg \"true\";\nUnattended-Upgrade::MinimalSteps \"true\";\n"

unfoldable pub enable_auto_updates : M (Unit {0})
unfolding install_package
enable_auto_updates = do
  install_package "unattended-upgrade" "unattended-upgrades" "unattended-upgrades"
  require (write_file "/etc/apt/apt.conf.d/20auto-upgrades" auto_upgrade_config 0o644)
      (message "failed to write auto-upgrade config: ")
  found ← call (stat "/etc/apt/apt.conf.d/50unattended-upgrades")
  when (not (succeeded found) && found.not_exist) (do
    require (write_file "/etc/apt/apt.conf.d/50unattended-upgrades" unattended_config 0o644)
        (message "failed to write unattended-upgrades config: ")
    return tt)

abbrev rollback_script : String
rollback_script =
    "#!/bin/bash\n" <> "# Supabyoi VM Hardening Emergency Rollback Script\n"
    <> "# This script should be run from console access if you get locked out\n" <> "# Usage: sudo "
    <> rollback_script_path <> "\n" <> "\n" <> "set -e\n" <> "\n"
    <> "echo \"=== Supabyoi VM Hardening Rollback ===\"\n"
    <> "echo \"This will restore SSH configuration from backups\"\n" <> "echo \"\"\n" <> "\n"
    <> "BACKUP_DIR=\"" <> backup_dir <> "\"\n" <> "\n" <> "# Find latest backups\n"
    <> "LATEST_SSHD=$(ls -t $BACKUP_DIR/sshd_config.* 2>/dev/null | head -1)\n" <> "\n"
    <> "if [ -z \"$LATEST_SSHD\" ]; then\n"
    <> "    echo \"ERROR: No backup files found in $BACKUP_DIR\"\n" <> "    exit 1\n" <> "fi\n"
    <> "\n" <> "echo \"Found backups:\"\n" <> "echo \"  SSH config: $LATEST_SSHD\"\n"
    <> "echo \"\"\n" <> "\n" <> "# Restore sshd_config\n"
    <> "echo \"Restoring SSH configuration...\"\n"
    <> "cp -f \"$LATEST_SSHD\" /etc/ssh/sshd_config\n" <> "\n" <> "# Remove custom config\n"
    <> "if [ -f \"" <> sshd_config_file <> "\" ]; then\n"
    <> "    echo \"Removing custom SSH config...\"\n" <> "    rm -f \"" <> sshd_config_file
    <> "\"\n" <> "fi\n" <> "\n" <> "# Temporarily enable root login on port 22\n"
    <> "echo \"Temporarily enabling root login on port 22...\"\n"
    <> "sed -i 's/^#*PermitRootLogin.*/PermitRootLogin yes/' /etc/ssh/sshd_config\n"
    <> "sed -i 's/^#*Port.*/Port 22/' /etc/ssh/sshd_config\n" <> "\n" <> "# Restart SSH\n"
    <> "echo \"Restarting SSH service...\"\n"
    <> "systemctl restart ssh 2>/dev/null || systemctl restart sshd\n" <> "\n"
    <> "# Disable UFW if active\n" <> "if command -v ufw >/dev/null 2>&1; then\n"
    <> "    echo \"Disabling UFW firewall...\"\n" <> "    ufw --force disable\n" <> "fi\n" <> "\n"
    <> "echo \"\"\n" <> "echo \"=== Rollback Complete ===\"\n"
    <> "echo \"You should now be able to connect via:\"\n"
    <> "echo \"  ssh root@<server-ip> -p 22\"\n" <> "echo \"\"\n"
    <> "echo \"IMPORTANT: Re-run hardening with correct configuration\"\n" <> "exit 0\n"

unfoldable pub create_rollback_script : HardenConfig → M (Unit {0})
create_rollback_script cfg = do
  require (write_file rollback_script_path rollback_script 0o755)
      (message "failed to write rollback script: ")
  return tt
