-- ===== src/Health/Round.antt =====
-- One round of the checks.
use vmkit_agent.Base.{
  ℕ, String, ◌<>◌, Bool, true, false, not, ◌&&◌, ◌||◌, List, [], ◌∷◌, ◌++◌, ◌==ₛ◌, ltb, contains,
  is_empty, trim_space, itoa, if◌then◌else◌,
}
use vmkit_agent.Host.{Call, http_get, Reply, M, ◌>>=◌, return, call, succeeded, error_text, cmd}

pub record ServiceHealth : Type 0 where
  pub name : String
  pub healthy : Bool
  pub message : String

pub record HealthCheckResult : Type 0 where
  pub all_healthy : Bool
  pub services : List ServiceHealth

-- The ports and the number of retries are never negative: they are the defaults, or are taken over
-- where they are positive.
pub record CheckConfig : Type 0 where
  pub subdomain : String
  pub timeout : ℕ
  pub retry_interval : ℕ
  pub max_retries : ℕ
  pub postgres_port : ℕ
  pub kong_port : ℕ
  pub studio_port : ℕ
  pub use_exponential : Bool
  pub services : List String
  pub postgres_container : String

unfoldable pub default_check_config : String → CheckConfig
default_check_config subdomain = record {
  subdomain = subdomain;
  timeout = 60000000000;
  retry_interval = 2000000000;
  max_retries = 30;
  postgres_port = 5432;
  kong_port = 8000;
  studio_port = 3000;
  use_exponential = true;
  services = [];
  postgres_container = "postgres";
}

abbrev legacy_service_suffixes : List String
legacy_service_suffixes = "postgres" ∷ "kong" ∷ "studio" ∷ []

abbrev pub container_name : String → String → String
container_name subdomain suffix =
    if suffix ==ₛ "realtime"
    then "realtime-dev." <> subdomain <> "-realtime"
    else subdomain <> "-" <> suffix

abbrev pub container_health : String → Reply → ServiceHealth
container_health name r =
    if not (succeeded r)
    then record {
      name = name;
      healthy = false;
      message = "Container not found or not accessible: " <> error_text r;
    }
    else if trim_space r.output ==ₛ "true"
    then record { name = name; healthy = true; message = "Container is running" }
    else record { name = name; healthy = false; message = "Container is not running" }

abbrev pub inspect : String → String → Call
inspect subdomain suffix = cmd 0 (
    "sudo"
    ∷ "docker"
    ∷ "inspect"
    ∷ "-f"
    ∷ "{{.State.Running}}"
    ∷ container_name subdomain suffix
    ∷ [])

unfoldable pub check_container_states : String → List String → M (List ServiceHealth)
check_container_states subdomain [] = return []
check_container_states subdomain (suffix ∷ suffixes) = do
  r ← call (inspect subdomain suffix)
  rest ← check_container_states subdomain suffixes
  return (container_health (container_name subdomain suffix) r ∷ rest)

abbrev pub postgres_health : Reply → ServiceHealth
postgres_health r =
    if not (succeeded r)
    then record {
      name = "postgresql";
      healthy = false;
      message = "pg_isready failed: " <> r.output;
    }
    else if contains r.output "accepting connections"
    then record {
      name = "postgresql";
      healthy = true;
      message = "PostgreSQL is accepting connections";
    }
    else record { name = "postgresql"; healthy = false; message = r.output }

unfoldable pub check_postgres : String → String → ℕ → M ServiceHealth
check_postgres subdomain suffix port = do
  r ← call (
      cmd 0 (
        "sudo"
        ∷ "docker"
        ∷ "exec"
        ∷ "-i"
        ∷ (subdomain <> "-" <> suffix)
        ∷ "pg_isready"
        ∷ "-h"
        ∷ "localhost"
        ∷ "-p"
        ∷ itoa port
        ∷ []))
  return (postgres_health r)

abbrev local_url : ℕ → String
local_url port = "http://localhost:" <> itoa port <> "/"

abbrev pub kong_health : Reply → ServiceHealth
kong_health r =
    if not (succeeded r)
    then record {
      name = "kong-gateway";
      healthy = false;
      message = "Kong not responding: " <> error_text r;
    }
    else if ltb 0 r.number
    then record {
      name = "kong-gateway";
      healthy = true;
      message = "Kong responding (HTTP " <> itoa r.number <> ")";
    }
    else record {
      name = "kong-gateway";
      healthy = false;
      message = "Kong returned invalid response";
    }

unfoldable pub check_kong_gateway : ℕ → M ServiceHealth
check_kong_gateway port = do r ← call (http_get (local_url port)); return (kong_health r)

abbrev pub studio_health : Reply → ServiceHealth
studio_health r =
    if not (succeeded r)
    then record {
      name = "studio";
      healthy = false;
      message = "Studio not responding: " <> error_text r;
    }
    else if ltb 0 r.number && ltb r.number 500
    then record {
      name = "studio";
      healthy = true;
      message = "Studio responding (HTTP " <> itoa r.number <> ")";
    }
    else record {
      name = "studio";
      healthy = false;
      message = "Studio error (HTTP " <> itoa r.number <> ")";
    }

unfoldable pub check_studio : ℕ → M ServiceHealth
check_studio port = do r ← call (http_get (local_url port)); return (studio_health r)

-- A service in the result; if it counts, a failure of it is one of the whole.
abbrev pub with_service : Bool → ServiceHealth → HealthCheckResult → HealthCheckResult
with_service counts s r = record {
  all_healthy = r.all_healthy && (not counts || s.healthy);
  services = r.services ++ s ∷ [];
}

abbrev pub with_services : List ServiceHealth → HealthCheckResult → HealthCheckResult
with_services [] r = r
with_services (s ∷ ss) r = with_services ss (with_service true s r)

abbrev pub suffixes_of : CheckConfig → List String
suffixes_of cfg = elim cfg.services [ [] ↦ legacy_service_suffixes | s ∷ ss ↦ s ∷ ss ]

abbrev pub database_of : CheckConfig → String
database_of cfg = if is_empty cfg.postgres_container then "postgres" else cfg.postgres_container

-- The studio does not count.
unfoldable pub gathered :
    List ServiceHealth → ServiceHealth → ServiceHealth → ServiceHealth → HealthCheckResult
gathered containers postgres kong studio = with_service false studio (
    with_service true kong (
      with_service true postgres
        (with_services containers (record { all_healthy = true; services = [] }))))

-- The checks after those of the containers
unfoldable pub check_services : CheckConfig → List ServiceHealth → M HealthCheckResult
unfolding check_postgres check_kong_gateway check_studio gathered
check_services cfg containers = do
  postgres ← check_postgres cfg.subdomain (database_of cfg) cfg.postgres_port
  kong ← check_kong_gateway cfg.kong_port
  studio ← check_studio cfg.studio_port
  return (gathered containers postgres kong studio)

unfoldable pub run_health_checks : CheckConfig → M HealthCheckResult
unfolding check_container_states
run_health_checks cfg = do
  containers ← check_container_states cfg.subdomain (suffixes_of cfg)
  check_services cfg containers
