-- ===== src/Config.antt =====
-- internal/config/config.go: the configuration of a deployment is read from a file.
use vmkit_agent.Base.{String, ◌<>◌, Bool, not, ℤ, pos, int_eq, is_empty, if◌then◌else◌}
use vmkit_agent.Host.{
  read_file, Outcome, M, ◌>>=◌, ◌>>◌, return, ensure, of_outcome, require, wrapped, message,
}

-- The fields of `DeployConfig` that are texts, tests or numbers; the lists and maps, which `Load`
-- hands on as they are, are left out.
pub record DeployConfig : Type 0 where
  pub instance_id : String
  pub subdomain : String
  pub domain : String
  pub studio_domain : String
  pub base_dir : String
  pub enable_tls : Bool
  pub vm_user : String
  pub kong_port : ℤ
  pub postgres_port : ℤ
  pub studio_port : ℤ
  pub postgres_password : String
  pub jwt_secret : String
  pub publishable_key : String
  pub secret_key : String
  pub pgsodium_key : String
  pub dashboard_username : String
  pub dashboard_password : String
  pub is_first_instance : Bool
  pub cert_pem : String
  pub key_pem : String
  pub postgres_image : String
  pub compose_content : String
  pub env_content : String
  pub kong_content : String
  pub postgres_container : String

abbrev or_port : ℤ → ℤ → ℤ
or_port port default = if int_eq port (pos 0) then default else port

unfoldable pub with_defaults : DeployConfig → DeployConfig
with_defaults cfg = record cfg {
  base_dir = if is_empty cfg.base_dir then "/opt/supabase" else cfg.base_dir;
  kong_port = or_port cfg.kong_port (pos 8000);
  postgres_port = or_port cfg.postgres_port (pos 5432);
  studio_port = or_port cfg.studio_port (pos 3000);
}

abbrev needs : String → String → M (Unit {0})
needs value name = ensure (not (is_empty value)) (name <> " is required")

-- JSON
module _ (unmarshal : String → Outcome DeployConfig) where
  unfoldable pub load : String → M DeployConfig
  load path = do
    data_of ← require (read_file path) (message "failed to read config file: ")
    cfg ← wrapped "failed to parse config: " (of_outcome (unmarshal data_of.output))
    needs cfg.instance_id "instance_id"
    needs cfg.subdomain "subdomain"
    needs cfg.domain "domain"
    needs cfg.postgres_password "postgres_password"
    needs cfg.jwt_secret "jwt_secret"
    return (with_defaults cfg)
