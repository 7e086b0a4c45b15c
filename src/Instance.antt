-- ===== src/Instance.antt =====
-- internal/instance/instance.go: the state of an instance, and its start, stop and restart.
pub mod Laws
use vmkit_agent.Base.{
  zero, suc, String, ◌<>◌, Bool, true, false, not, ◌&&◌, ◌||◌, Option, none, some, List, [], ◌∷◌,
  ◌++◌, ◌==ₛ◌, ℤ, starts_with, drop_prefix, is_empty, join_path, if◌then◌else◌,
}
use Prim.Native.String.{len}
use vmkit_agent.Host.{
  Call, exec, now, Reply, Outcome, ok, err, M, ◌>>=◌, ◌>>◌, return, fail, ensure, call, require,
  attempt, wrapped, succeeded, error_text, cmd,
}
use vmkit_agent.Compose.{
  instance_dir, compose_call, compose_start, compose_stop, compose_restart, tail_args,
}
use vmkit_agent.Compose.Status.{ContainerInfo, ContainerStatus, get_container_status}

abbrev pub Checks : Type 0
Checks = List (String × Bool)

pub record InstanceStatus : Type 0 where
  pub instance_id : String
  pub state : String
  pub containers : List ContainerStatus
  pub health_checks : Checks
  pub last_checked : String

-- The two results of `Status`
pub record StatusReply : Type 0 where
  pub status : Option InstanceStatus
  pub error : Option String

abbrev default_base_dir : String
default_base_dir = "/opt/supabase"

abbrev pub lookup : String → Checks → Option Bool
lookup key [] = none
lookup key ((k, v) ∷ m) = let rest = lookup key m in if k ==ₛ key then some v else rest

abbrev pub set : String → Bool → Checks → Checks
set key value [] = (key, value) ∷ []
set key value ((k, v) ∷ m) =
    let rest = set key value m in if k ==ₛ key then (key, value) ∷ m else (k, v) ∷ rest

abbrev pub runs : ContainerStatus → Bool
runs c = c.state ==ₛ "running"

-- The loop over the containers, with its three variables
pub record Scan : Type 0 where
  pub all_running : Bool
  pub any_running : Bool
  pub checks : Checks

abbrev pub seen : ContainerStatus → Scan → Scan
seen c s = record {
  all_running = s.all_running && runs c;
  any_running = s.any_running || runs c;
  checks = set c.name (runs c) s.checks;
}

unfoldable pub scan : List ContainerStatus → Scan → Scan
scan [] s = s
scan (c ∷ cs) s = scan cs (seen c s)

unfoldable pub state_of : List ContainerStatus → Scan → String
state_of [] s = "stopped"
state_of (c ∷ cs) s =
    if s.all_running then "running" else if s.any_running then "degraded" else "stopped"

abbrev pub empty_scan : Scan
empty_scan = record { all_running = true; any_running = false; checks = [] }

abbrev status_with : InstanceStatus → Outcome (List ContainerStatus) → StatusReply
status_with s (err e) = record {
  status = some (record s { state = "error" });
  error = some ("failed to get container statuses: " <> e);
}
status_with s (ok cs) = record {
  status = some (record s {
    containers = cs;
    state = state_of cs (scan cs empty_scan);
    health_checks = (scan cs empty_scan).checks;
  });
  error = none;
}

-- JSON
module _ (unmarshal : String → Option ContainerInfo) where
  unfoldable pub status : String → String → M StatusReply
  unfolding scan state_of
  status instance_id subdomain = do
    let missing : M StatusReply =
        return (record { status = none; error = some "subdomain is required" })
    let found : M StatusReply = do
      time ← call (now "2006-01-02T15:04:05Z07:00")
      r ← attempt (get_container_status unmarshal (instance_dir subdomain default_base_dir))
      return (
          status_with
            (record {
              instance_id = instance_id;
              state = "";
              containers = [];
              health_checks = [];
              last_checked = time.output;
            })
            r)
    if is_empty subdomain then missing else found

unfoldable pub file_exists : String → M Bool
file_exists path = do r ← call (cmd 0 ("test" ∷ "-f" ∷ path ∷ [])); return (succeeded r)

-- What `Start`, `Stop` and `Restart` share: the checks, and the text before an error
unfoldable pub on_instance : String → String → (String → M (Unit {0})) → M (Unit {0})
unfolding file_exists
on_instance prefix subdomain act = do
  ensure (not (is_empty subdomain)) "subdomain is required"
  let dir = instance_dir subdomain default_base_dir
  there ← file_exists (join_path dir "docker-compose.yml")
  ensure there ("instance not found: " <> subdomain)
  wrapped prefix (act dir)

unfoldable pub start_instance : String → M (Unit {0})
unfolding on_instance
start_instance subdomain = on_instance "failed to start instance: " subdomain compose_start

unfoldable pub stop_instance : String → M (Unit {0})
unfolding on_instance
stop_instance subdomain = on_instance "failed to stop instance: " subdomain compose_stop

unfoldable pub restart_instance : String → M (Unit {0})
unfolding on_instance
restart_instance subdomain = on_instance "failed to restart instance: " subdomain compose_restart

-- `strings.TrimPrefix`
unfoldable pub trim_prefix : String → String → String
trim_prefix s p = if starts_with s p then drop_prefix s p else s

unfoldable pub logs : String → String → ℤ → Bool → M (Unit {0})
unfolding trim_prefix
logs subdomain container tail follow = do
  ensure (not (is_empty subdomain)) "subdomain is required"
  let service = if is_empty container then [] else trim_prefix container (subdomain <> "-") ∷ []
  require
      (compose_call (instance_dir subdomain default_base_dir)
        ("logs" ∷ tail_args tail ++ ((if follow then "-f" ∷ [] else []) ++ service)))
      error_text
  return tt
