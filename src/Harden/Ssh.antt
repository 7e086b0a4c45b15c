-- ===== src/Harden/Ssh.antt =====
-- `configureSSH` and `restartAndTestSSH`
use vmkit_agent.Base.{
  ℕ, zero, suc, String, ◌<>◌, not, [], ◌∷◌, contains, trim_space, show_int, if◌then◌else◌,
}
use vmkit_agent.Host.{
  mkdir_all, write_file, remove, now, sleep, M, ◌>>=◌, ◌>>◌, return, fail, ensure, call, require,
  when, best_effort, succeeded, cmd, message, error_text,
}
use vmkit_agent.Harden.Config.{HardenConfig, sshd_config_dir, sshd_config_file}

sshd_config : String → HardenConfig → String
sshd_config date cfg =
    "# VMKit SSH Security Configuration\n# Generated on "
    <> date
    <> "\n\nPort "
    <> show_int cfg.ssh_port
    <> "\nPermitRootLogin no\nPasswordAuthentication no\nPubkeyAuthentication yes\nKbdInteractiveAuthentication no\nUsePAM yes\n"

unfoldable pub configure_ssh : HardenConfig → M (Unit {0})
unfolding sshd_config
configure_ssh cfg = do
  require (mkdir_all sshd_config_dir 0o755) (message "failed to create sshd config directory: ")
  date ← call (now "2006-01-02T15:04:05Z07:00")
  require (write_file sshd_config_file (sshd_config date.output cfg) 0o644)
      (message "failed to write SSH config: ")
  best_effort (mkdir_all "/run/sshd" 0o755)
  tested ← call (cmd 10 ("/usr/sbin/sshd" ∷ "-t" ∷ []))
  when (not (succeeded tested)) (do
    best_effort (remove sshd_config_file)
    fail ("invalid SSH configuration (" <> error_text tested <> "): " <> trim_space tested.output))

-- A socket unit that is active would keep the old port: it is stopped and disabled.
unfoldable pub disable_socket : String → M (Unit {0})
disable_socket socket = do
  active ← call (cmd 5 ("systemctl" ∷ "is-active" ∷ socket ∷ []))
  when (succeeded active) (do
    require (cmd 30 ("systemctl" ∷ "stop" ∷ socket ∷ []))
        (message ("failed to stop " <> socket <> " (required for port change): "))
    require (cmd 15 ("systemctl" ∷ "disable" ∷ socket ∷ []))
        (message ("failed to disable " <> socket <> " (required for port change): "))
    best_effort (sleep 500)
    still ← call (cmd 5 ("systemctl" ∷ "is-active" ∷ socket ∷ []))
    ensure (not (succeeded still))
        (socket <> " is still active after stop/disable - systemd may be auto-restarting it"))

-- The loop of ten attempts, which goes on to the port check whether the service came up or not.
unfoldable pub await_active : ℕ → String → M (Unit {0})
await_active zero service = return tt
await_active (suc attempts) service = do
  active ← call (cmd 5 ("systemctl" ∷ "is-active" ∷ service ∷ []))
  when (not (succeeded active)) (do best_effort (sleep 1000); await_active attempts service)

unfoldable pub check_port : HardenConfig → M (Unit {0})
check_port cfg = do
  let port = show_int cfg.ssh_port
  listening ← require (cmd 10 ("ss" ∷ "-tuln" ∷ [])) (message "failed to check listening ports: ")
  ensure (contains listening.output (":" <> port)) ("SSH is not listening on port " <> port)
  require (cmd 10 ("timeout" ∷ "5" ∷ "nc" ∷ "-z" ∷ "localhost" ∷ port ∷ []))
      (message ("cannot connect to SSH on port " <> port <> ": "))
  return tt

unfoldable pub restart_and_test_ssh : HardenConfig → M (Unit {0})
restart_and_test_ssh cfg = do
  unit ← call (cmd 5 ("systemctl" ∷ "cat" ∷ "ssh.service" ∷ []))
  let service = if succeeded unit then "ssh" else "sshd"
  disable_socket (service <> ".socket")
  require (cmd 15 ("systemctl" ∷ "enable" ∷ service ∷ []))
      (message ("failed to enable " <> service <> " service: "))
  require (cmd 30 ("systemctl" ∷ "restart" ∷ service ∷ []))
      (message "failed to restart SSH service: ")
  await_active 10 service
  check_port cfg
