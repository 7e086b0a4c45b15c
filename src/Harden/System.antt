-- ===== src/Harden/System.antt =====
-- `preflightChecks`, `createBackups`, `buildAuthorizedKeys` and `configureUser`
use vmkit_agent.Base.{
  String, ◌<>◌, not, ◌&&◌, List, [], ◌∷◌, ◌==◌, starts_with, is_empty, trim_space, contains, quote,
  out_of_range, if◌then◌else◌,
}
use vmkit_agent.Host.{
  geteuid, stat, mkdir_all, write_file, remove, now, Outcome, ok, err, M, ◌>>=◌, ◌>>◌, return, fail,
  ensure, call, require, when, of_outcome, best_effort, succeeded, cmd, message,
}
use vmkit_agent.Harden.Config.{HardenConfig, backup_dir}

-- The loop over `extras`, in front of what it has written.
unfoldable pub extra_keys : String → List String → Outcome String
extra_keys written [] = ok written
extra_keys written (extra ∷ extras) =
    let trimmed = trim_space extra in
    let rest =
      extra_keys (if is_empty trimmed then written else written <> trimmed <> "\n") extras in
    if is_empty trimmed
    then rest
    else if not (starts_with trimmed "ssh-")
    then err ("invalid extra SSH public key (must start with 'ssh-'): " <> quote trimmed)
    else rest

unfoldable pub build_authorized_keys : String → List String → Outcome String
build_authorized_keys primary extras = extra_keys (primary <> "\n") extras

-- The default user is written into the configuration, which the later steps read.
unfoldable pub default_user : HardenConfig → HardenConfig
default_user cfg = if is_empty cfg.vm_user then record cfg { vm_user = "supabyoi" } else cfg

unfoldable pub preflight_checks : HardenConfig → M HardenConfig
preflight_checks cfg = do
  uid ← call geteuid
  ensure (uid.number == 0) "hardening must run as root or with sudo"
  ensure (not (is_empty cfg.ssh_public_key)) "SSH public key is required"
  ensure (starts_with cfg.ssh_public_key "ssh-") "invalid SSH public key format"
  ensure (not (out_of_range cfg.ssh_port)) "SSH port must be between 1 and 65535"
  require (stat "/etc/debian_version") (λ r. "currently only Ubuntu/Debian systems are supported")
  require (mkdir_all backup_dir 0o700) (message "cannot create backup directory: ")
  return (default_user cfg)

-- One round of the loop of `createBackups`: the file, its base name and the time stamp
backup_file : String → String → String → M (Unit {0})
backup_file timestamp file base = do
  found ← call (stat file)
  let target = backup_dir <> "/" <> base <> "." <> timestamp
  when (succeeded found) (do
    require (cmd 10 ("cp" ∷ "-p" ∷ file ∷ target ∷ []))
        (message ("failed to backup " <> file <> ": "))
    return tt)

unfoldable pub create_backups : M (Unit {0})
unfolding backup_file
create_backups = do
  timestamp ← call (now "20060102-150405")
  backup_file timestamp.output "/etc/ssh/sshd_config" "sshd_config"
  backup_file timestamp.output "/root/.ssh/authorized_keys" "authorized_keys"

-- `configureUser`, up to the sudo rights
join_groups : String → M (Unit {0})
join_groups user = do
  found ← call (cmd 5 ("id" ∷ "-u" ∷ user ∷ []))
  when (not (succeeded found)) (do
    require (cmd 10 ("useradd" ∷ "-m" ∷ "-s" ∷ "/bin/bash" ∷ user ∷ []))
        (message "failed to create user: ")
    return tt)
  require (cmd 10 ("usermod" ∷ "-aG" ∷ "sudo" ∷ user ∷ []))
      (message "failed to add user to sudo group: ")
  require (cmd 10 ("usermod" ∷ "-aG" ∷ "docker" ∷ user ∷ []))
      (message "failed to add user to docker group (is Docker installed?): ")
  groups ← call (cmd 5 ("groups" ∷ user ∷ []))
  ensure (succeeded groups && contains groups.output "docker") (
      "usermod -aG docker succeeded but "
      <> user
      <> " is not in docker group (groups: "
      <> trim_space groups.output
      <> ")")

-- the sudo rights, with the syntax check that takes a bad file away again
grant_sudo : String → M (Unit {0})
grant_sudo user = do
  let sudoers_file = "/etc/sudoers.d/" <> user
  require (write_file sudoers_file (user <> " ALL=(ALL) NOPASSWD:ALL\n") 0o440)
      (message "failed to configure sudo: ")
  checked ← call (cmd 5 ("visudo" ∷ "-c" ∷ "-f" ∷ sudoers_file ∷ []))
  when (not (succeeded checked)) (do
    best_effort (remove sudoers_file)
    fail (message "invalid sudoers configuration: " checked))

-- the keys of the user
install_keys : HardenConfig → M (Unit {0})
install_keys cfg = do
  let ssh_dir = "/home/" <> cfg.vm_user <> "/.ssh"
  require (mkdir_all ssh_dir 0o700) (message "failed to create .ssh directory: ")
  content ← of_outcome (build_authorized_keys cfg.ssh_public_key cfg.extra_authorized_keys)
  require (write_file (ssh_dir <> "/authorized_keys") content 0o600)
      (message "failed to write authorized_keys: ")
  require (cmd 10 ("chown" ∷ "-R" ∷ (cfg.vm_user <> ":" <> cfg.vm_user) ∷ ssh_dir ∷ []))
      (message "failed to set ownership: ")
  return tt

unfoldable pub configure_user : HardenConfig → M (Unit {0})
unfolding join_groups grant_sudo install_keys
configure_user cfg = do
  join_groups cfg.vm_user
  grant_sudo cfg.vm_user
  install_keys cfg
  require (cmd 10 ("sudo" ∷ "-u" ∷ cfg.vm_user ∷ "sudo" ∷ "-n" ∷ "true" ∷ []))
      (message "user cannot sudo without password: ")
  return tt
