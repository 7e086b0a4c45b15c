-- ===== src/EnableTls/Steps.antt =====
-- The certificates of internal/tls/tls.go, and the site over HTTPS.
use vmkit_agent.Base.{
  String, ◌<>◌, Bool, true, false, not, ◌||◌, List, [], ◌∷◌, ℤ, pos, int_eq, is_empty, join_path,
  if◌then◌else◌,
}
use vmkit_agent.Host.{
  mkdir_all, write_file, stat, M, ◌>>=◌, ◌>>◌, return, ensure, call, require, wrapped, message,
}
use vmkit_agent.Nginx.Site.{SiteConfig}
use vmkit_agent.Nginx.{write_htpasswd, create_site_config}

-- The base directory, which nothing reads, is left out.
pub record EnableTlsConfig : Type 0 where
  pub instance_id : String
  pub subdomain : String
  pub domain : String
  pub studio_domain : String
  pub cert_pem : String
  pub key_pem : String
  pub kong_port : ℤ
  pub studio_port : ℤ
  pub dashboard_username : String
  pub dashboard_password : String

abbrev pub default_cert_dir : String
default_cert_dir = "/etc/letsencrypt"

abbrev pub certificate_path : String → String → String
certificate_path domain cert_dir = join_path (join_path cert_dir "live") domain

abbrev pub Files : Type 0
Files = List (String × String)

abbrev pub Order : Type 0
Order = Files → Files

unfoldable pub write_files : String → Files → M (Unit {0})
write_files dir [] = return tt
write_files dir ((name, text) ∷ files) = do
  require (write_file (join_path dir name) text 0o600)
      (message ("failed to write " <> name <> ": "))
  write_files dir files

unfoldable pub write_certificate : Order → String → String → String → String → M (Unit {0})
write_certificate order domain cert_dir cert_pem key_pem = do
  let dir = certificate_path domain cert_dir
  require (mkdir_all dir 0o755) (message ("failed to create certificate directory " <> dir <> ": "))
  write_files dir (order (("fullchain.pem", cert_pem) ∷ ("privkey.pem", key_pem) ∷ []))

-- A file counts as there unless the error says that it is not.
unfoldable pub is_provisioned_in_dir : String → String → M Bool
is_provisioned_in_dir domain cert_dir = do
  let dir = certificate_path domain cert_dir
  cert ← call (stat (join_path dir "fullchain.pem"))
  let looked : M Bool = do
    key ← call (stat (join_path dir "privkey.pem"))
    return (not key.not_exist)
  if cert.not_exist then return false else looked

abbrev pub or_port : ℤ → ℤ → ℤ
or_port port default = if int_eq port (pos 0) then default else port

abbrev pem_of : String → String → String
pem_of domain file = "/etc/letsencrypt/live/" <> domain <> "/" <> file

-- The site, with the file of the studio's password
abbrev pub site_of : EnableTlsConfig → String → SiteConfig
site_of cfg htpasswd = record {
  subdomain = cfg.subdomain;
  domain = cfg.domain;
  studio_domain = cfg.studio_domain;
  kong_port = or_port cfg.kong_port (pos 8000);
  studio_port = or_port cfg.studio_port (pos 3000);
  tls_enabled = true;
  cert_path = pem_of cfg.domain "fullchain.pem";
  key_path = pem_of cfg.domain "privkey.pem";
  studio_cert_path = pem_of cfg.studio_domain "fullchain.pem";
  studio_key_path = pem_of cfg.studio_domain "privkey.pem";
  studio_htpasswd_path = htpasswd;
}

unfoldable pub configure_nginx_https : (String → String) → EnableTlsConfig → M (Unit {0})
configure_nginx_https sha1 cfg = do
  ensure (not (is_empty cfg.dashboard_username || is_empty cfg.dashboard_password))
      "dashboard_username and dashboard_password are required to gate studio basic-auth"
  path ←
      wrapped "write studio htpasswd: "
        (write_htpasswd sha1 cfg.subdomain cfg.dashboard_username cfg.dashboard_password)
  create_site_config (site_of cfg path)
