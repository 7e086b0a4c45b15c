-- ===== src/Compose.antt =====
-- internal/compose/compose.go: Docker Compose for one instance. Of a `Compose` only its directory is
-- read, so the methods take that.
pub mod Status
pub mod Waiting
use vmkit_agent.Base.{
  zero, suc, String, ◌<>◌, Bool, List, [], ◌∷◌, ◌++◌, ℤ, pos, negsuc, show_int, contains, join_path,
  if◌then◌else◌,
}
use vmkit_agent.Host.{
  Call, exec, Reply, M, ◌>>=◌, ◌>>◌, return, fail, call, require, succeeded, error_text,
}

-- The directory of `New(instanceID, baseDir)`
abbrev pub instance_dir : String → String → String
instance_dir instance_id base_dir = join_path base_dir instance_id

abbrev pub compose_call : String → List String → Call
compose_call dir args = exec dir 0 ("sudo" ∷ "docker" ∷ "compose" ∷ args)

abbrev pub with_streams : String → Reply → String
with_streams prefix r =
    prefix <> error_text r <> "\nStdout: " <> r.output <> "\nStderr: " <> r.errors

abbrev pub with_errors : String → Reply → String
with_errors prefix r = prefix <> error_text r <> "\nStderr: " <> r.errors

unfoldable pub pull : String → M (Unit {0})
pull dir = do
  require (compose_call dir ("pull" ∷ [])) (with_streams "failed to pull images: ")
  return tt

unfoldable pub up : String → M (Unit {0})
up dir = do
  require (compose_call dir ("up" ∷ "-d" ∷ "--remove-orphans" ∷ []))
      (with_streams "failed to start containers: ")
  return tt

unfoldable pub up_service : String → String → M (Unit {0})
up_service dir service = do
  require (compose_call dir ("up" ∷ "-d" ∷ "--no-deps" ∷ service ∷ []))
      (with_streams ("failed to start service " <> service <> ": "))
  return tt

-- `down`, which `Down` and `DownWithVolumes` call
unfoldable pub down : String → Bool → M (Unit {0})
down dir remove_volumes = do
  require (compose_call dir ("down" ∷ (if remove_volumes then "-v" ∷ [] else [])))
      (with_streams "failed to stop containers: ")
  return tt

abbrev pub compose_stop : String → M (Unit {0})
compose_stop dir = do
  require (compose_call dir ("stop" ∷ [])) (with_streams "failed to stop containers: ")
  return tt

unfoldable pub compose_start : String → M (Unit {0})
compose_start dir = do
  require (compose_call dir ("start" ∷ [])) (with_streams "failed to start containers: ")
  return tt

unfoldable pub compose_restart : String → M (Unit {0})
compose_restart dir = do
  require (compose_call dir ("restart" ∷ [])) (with_streams "failed to restart containers: ")
  return tt

-- The limit on the lines of a log is given only if it is positive.
abbrev pub tail_args : ℤ → List String
tail_args (pos zero) = []
tail_args (pos (suc n)) = "--tail" ∷ show_int (pos (suc n)) ∷ []
tail_args (negsuc n) = []

-- Where there is no compose file there are no logs, and that is no error.
unfoldable pub logs : String → ℤ → M String
logs dir tail = do
  r ← call (compose_call dir ("logs" ∷ tail_args tail))
  if succeeded r
      then return r.output
      else if contains r.errors "no configuration file"
      then return ""
      else fail (with_errors "failed to get logs: " r)

unfoldable pub get_service_logs : String → String → ℤ → M String
get_service_logs dir service tail = do
  r ←
      require (compose_call dir ("logs" ∷ service ∷ tail_args tail))
        (with_errors ("failed to get logs for service " <> service <> ": "))
  return r.output

unfoldable pub exec_in : String → String → List String → M String
exec_in dir service command = do
  r ←
      require (compose_call dir ("exec" ∷ "-T" ∷ service ∷ command))
        (with_errors ("failed to execute command in " <> service <> ": "))
  return r.output

-- The variables are in the order in which Go visits the map.
abbrev pub env_args : List (String × String) → List String
env_args [] = []
env_args ((k, v) ∷ env) = "-e" ∷ (k <> "=" <> v) ∷ env_args env

unfoldable pub exec_with_env : String → String → List String → List (String × String) → M String
exec_with_env dir service command env = do
  r ←
      require (compose_call dir ("exec" ∷ "-T" ∷ env_args env ++ service ∷ command))
        (with_errors ("failed to execute command in " <> service <> ": "))
  return r.output

unfoldable pub validate : String → M (Unit {0})
validate dir = do
  require (compose_call dir ("config" ∷ "--quiet" ∷ []))
      (with_errors "docker-compose.yml validation failed: ")
  return tt
