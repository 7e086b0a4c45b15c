-- ===== src/Docker.antt =====
-- internal/docker/docker.go: Docker is put on the machine.
use vmkit_agent.Base.{
  String, ◌<>◌, Bool, false, not, ◌&&◌, [], ◌∷◌, ◌==ₛ◌, contains, is_empty, trim_space,
  if◌then◌else◌,
}
use vmkit_agent.Host.{
  look_path, M, ◌>>=◌, ◌>>◌, return, ensure, call, require, when, wrapped, succeeded, cmd, message,
}
use vmkit_agent.Compose.{with_streams}

unfoldable pub is_installed : M Bool
is_installed = do
  found ← call (look_path "docker")
  let compose : M Bool = do
    r ← call (cmd 0 ("docker" ∷ "compose" ∷ "version" ∷ []))
    return (succeeded r)
  if succeeded found then compose else return false

unfoldable pub install_docker : M (Unit {0})
install_docker = do
  require (cmd 0 ("sh" ∷ "-c" ∷ "curl -fsSL https://get.docker.com | sh" ∷ []))
      (with_streams "Docker installation script failed: ")
  return tt

unfoldable pub enable_docker_service : M (Unit {0})
enable_docker_service = do
  require (cmd 0 ("systemctl" ∷ "enable" ∷ "docker" ∷ []))
      (message "failed to enable Docker service: ")
  require (cmd 0 ("systemctl" ∷ "start" ∷ "docker" ∷ []))
      (message "failed to start Docker service: ")
  return tt

unfoldable pub ensure_user_in_docker_group : String → M (Unit {0})
ensure_user_in_docker_group username = do
  r ← require (cmd 0 ("groups" ∷ username ∷ [])) (message "failed to check user groups: ")
  when (not (contains r.output "docker")) (do
    require (cmd 0 ("usermod" ∷ "-aG" ∷ "docker" ∷ username ∷ []))
        (message ("failed to add user " <> username <> " to docker group: "))
    return tt)

abbrev in_group : String → Bool
in_group username = not (is_empty username) && not (username ==ₛ "root")

unfoldable pub install_new : String → M (Unit {0})
install_new username = do
  wrapped "failed to install Docker: " install_docker
  wrapped "failed to enable Docker service: " enable_docker_service
  when (in_group username)
      (wrapped "failed to add user to docker group: " (ensure_user_in_docker_group username))
  there ← is_installed
  ensure there "Docker installation verification failed"

unfoldable pub install : String → M (Unit {0})
install username = do
  there ← is_installed
  if there
      then when (in_group username) (ensure_user_in_docker_group username)
      else install_new username

unfoldable pub get_version : M String
get_version = do
  r ← require (cmd 0 ("docker" ∷ "--version" ∷ [])) (message "failed to get Docker version: ")
  return (trim_space r.output)

unfoldable pub get_compose_version : M String
get_compose_version = do
  r ←
      require (cmd 0 ("docker" ∷ "compose" ∷ "version" ∷ []))
        (message "failed to get Docker Compose version: ")
  return (trim_space r.output)

unfoldable pub is_service_running : M Bool
is_service_running = do r ← call (cmd 0 ("docker" ∷ "info" ∷ [])); return (succeeded r)

unfoldable pub wait_for_daemon : M (Unit {0})
wait_for_daemon = do running ← is_service_running; ensure running "Docker daemon is not running"
