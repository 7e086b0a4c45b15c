-- ===== src/Nginx.antt =====
-- internal/nginx: the web server in front of the instances, and its password files.
pub mod Site
use vmkit_agent.Base.{
  String, ◌<>◌, Bool, true, false, not, ◌&&◌, ◌||◌, List, [], ◌∷◌, ◌==ₛ◌, contains, is_empty, join,
  split_at, trim_space, replace_first, if◌then◌else◌,
}
use vmkit_agent.Host.{
  Call, exec, remove, mkdir_all, write_file, read_file, chmod, look_path, Reply, Outcome, ok, err,
  M, ◌>>=◌, ◌>>◌, return, fail, ensure, call, require, when, best_effort, attempt, wrapped,
  succeeded, error_text, cmd, message,
}
use vmkit_agent.Nginx.Site.{SiteConfig, generate_site_config_content}

abbrev pub supabase_sites_dir : String
supabase_sites_dir = "/etc/nginx/supabase-sites"

abbrev pub nginx_conf : String
nginx_conf = "/etc/nginx/nginx.conf"

-- A command whose error ends the operation with this text before it
abbrev must : List String → String → M (Unit {0})
must argv prefix = do require (cmd 0 argv) (message prefix); return tt

abbrev pub test_call : Call
test_call = cmd 0 ("nginx" ∷ "-t" ∷ [])

abbrev pub reload_call : Call
reload_call = cmd 0 ("systemctl" ∷ "reload" ∷ "nginx" ∷ [])

abbrev pub test_config : M (Unit {0})
test_config = do
  require test_call (λ r. "nginx -t failed: " <> error_text r <> "\nOutput: " <> r.errors)
  return tt

abbrev pub reload : M (Unit {0})
reload = do require reload_call (message "systemctl reload nginx failed: "); return tt

unfoldable pub restart : M (Unit {0})
restart = must ("systemctl" ∷ "restart" ∷ "nginx" ∷ []) "systemctl restart nginx failed: "

unfoldable pub is_service_running : M Bool
is_service_running = do
  r ← call (cmd 0 ("systemctl" ∷ "is-active" ∷ "nginx" ∷ []))
  return (succeeded r)

unfoldable pub get_version : M String
get_version = do
  r ← require (cmd 0 ("nginx" ∷ "-v" ∷ [])) (message "failed to get Nginx version: ")
  return (trim_space r.output)

abbrev pub site_path : String → String
site_path subdomain = supabase_sites_dir <> "/" <> subdomain <> ".conf"

abbrev unless_failed : String → Outcome (Unit {0}) → M (Unit {0})
unless_failed prefix (ok _) = return tt
unless_failed prefix (err e) = fail (prefix <> e)

abbrev pub remove_site_config : String → M (Unit {0})
remove_site_config subdomain = do
  r ← call (remove (site_path subdomain))
  when (not (succeeded r) && not r.not_exist) (fail (message "failed to remove config file: " r))
  tested ← attempt test_config
  unless_failed "configuration test failed after removal: " tested
  reloaded ← attempt reload
  unless_failed "failed to reload Nginx: " reloaded

unfoldable pub is_installed : M Bool
is_installed = do r ← call (look_path "nginx"); return (succeeded r)

unfoldable pub install_nginx_package : M (Unit {0})
install_nginx_package = do
  must ("apt-get" ∷ "update" ∷ []) "apt-get update failed: "
  require (cmd 0 ("apt-get" ∷ "install" ∷ "-y" ∷ "nginx" ∷ [])) (λ r.
      "apt-get install nginx failed: "
      <> error_text r
      <> "\nStdout: "
      <> r.output
      <> "\nStderr: "
      <> r.errors)
  return tt

unfoldable pub enable_nginx_service : M (Unit {0})
enable_nginx_service = do
  must ("systemctl" ∷ "enable" ∷ "nginx" ∷ []) "failed to enable Nginx service: "
  must ("systemctl" ∷ "start" ∷ "nginx" ∷ []) "failed to start Nginx service: "

abbrev owned : String → Bool
owned username = not (is_empty username) && not (username ==ₛ "root")

unfoldable pub setup_supabase_sites_dir : String → M (Unit {0})
setup_supabase_sites_dir username = do
  require (mkdir_all supabase_sites_dir 0o755)
      (message ("failed to create " <> supabase_sites_dir <> ": "))
  when (owned username) (
      must ("chown" ∷ (username <> ":" <> username) ∷ supabase_sites_dir ∷ [])
        ("failed to set ownership on " <> supabase_sites_dir <> ": "))

-- `grep` says whether the configuration has the line already.
abbrev unless_found : String → M (Unit {0}) → M (Unit {0})
unless_found pattern m = do
  r ← call (cmd 0 ("grep" ∷ "-q" ∷ pattern ∷ nginx_conf ∷ []))
  if succeeded r then return tt else m

unfoldable pub ensure_include_directive : M (Unit {0})
ensure_include_directive = unless_found supabase_sites_dir (
    must
      ("sudo"
        ∷ "sed"
        ∷ "-i"
        ∷ ("/http {/a\\        include " <> supabase_sites_dir <> "/*.conf;")
        ∷ nginx_conf
        ∷ [])
      "failed to add include directive: ")

abbrev rate_limit_zones : String
rate_limit_zones =
    "    # Supabyoi rate limiting zones\n"
    <> "    limit_req_zone $binary_remote_addr zone=supabyoi_auth:10m rate=5r/s;\n"
    <> "    limit_req_zone $binary_remote_addr zone=supabyoi_api:10m rate=30r/s;\n"
    <> "    limit_req_zone $binary_remote_addr zone=supabyoi_storage:10m rate=10r/s;\n"

-- The configuration is read, changed and written back.
abbrev edit : (String → String) → M (Unit {0})
edit change = do
  r ← require (read_file nginx_conf) (message "failed to read nginx.conf: ")
  require (write_file nginx_conf (change r.output) 0o644) (message "failed to write nginx.conf: ")
  return tt

unfoldable pub configure_rate_limiting : M (Unit {0})
configure_rate_limiting =
    unless_found "limit_req_zone.*zone=supabyoi_auth"
      (edit (λ content. replace_first content "http {" ("http {\n" <> rate_limit_zones)))

abbrev bucket_line : String → Bool
bucket_line line = contains (trim_space line) "server_names_hash_bucket_size"

unfoldable pub without_bucket_size : List String → List String
without_bucket_size [] = []
without_bucket_size (line ∷ lines) =
    let rest = without_bucket_size lines in if bucket_line line then rest else line ∷ rest

abbrev pub with_bucket_size : String → String
with_bucket_size content =
    replace_first (join "\n" (without_bucket_size (split_at b'\n' content))) "http {"
      "http {\n    server_names_hash_bucket_size 128;"

unfoldable pub configure_server_names_hash_bucket_size : M (Unit {0})
configure_server_names_hash_bucket_size =
    unless_found "server_names_hash_bucket_size 128" (edit with_bucket_size)

unfoldable pub ensure_configuration : String → M (Unit {0})
ensure_configuration username = do
  wrapped "failed to setup supabase-sites directory: " (setup_supabase_sites_dir username)
  wrapped "failed to add include directive: " ensure_include_directive
  wrapped "failed to configure rate limiting: " configure_rate_limiting
  wrapped "failed to configure server names hash bucket size: "
      configure_server_names_hash_bucket_size
  wrapped "Nginx configuration test failed: " test_config
  wrapped "failed to reload Nginx: " reload

unfoldable pub install_new : String → M (Unit {0})
install_new username = do
  wrapped "failed to install Nginx package: " install_nginx_package
  wrapped "failed to enable Nginx service: " enable_nginx_service
  wrapped "failed to setup Nginx configuration: " (ensure_configuration username)
  there ← is_installed
  ensure there "Nginx installation verification failed"

unfoldable pub install : String → M (Unit {0})
install username = do
  there ← is_installed
  if there
      then wrapped "failed to ensure Nginx configuration: " (ensure_configuration username)
      else install_new username

-- A site that fails the test is taken away again.
abbrev pub judged_site : String → Outcome (Unit {0}) → M (Unit {0})
judged_site path (err e) = do
  best_effort (remove path)
  fail ("configuration test failed, rolled back: " <> e)
judged_site path (ok _) = wrapped "failed to reload Nginx: " reload

-- The site is written, tested and taken up.
unfoldable pub put_site : SiteConfig → M (Unit {0})
put_site s = do
  require (write_file (site_path s.subdomain) (generate_site_config_content s) 0o644)
      (message "failed to write config file: ")
  tested ← attempt test_config
  judged_site (site_path s.subdomain) tested

unfoldable pub create_site_config : SiteConfig → M (Unit {0})
create_site_config s = do
  wrapped "failed to configure rate limiting: " configure_rate_limiting
  put_site s

abbrev pub htpasswd_path_for : String → String
htpasswd_path_for subdomain = supabase_sites_dir <> "/" <> subdomain <> ".htpasswd"

-- SHA-1 in base 64
module _ (sha1 : String → String) where
  unfoldable pub write_htpasswd : String → String → String → M String
  write_htpasswd subdomain username password = do
    ensure (not (is_empty username || is_empty password)) "username and password are both required"
    require (mkdir_all supabase_sites_dir 0o755) (message ("create " <> supabase_sites_dir <> ": "))
    let path = htpasswd_path_for subdomain
    require (write_file path (username <> ":{SHA}" <> sha1 password <> "\n") 0o644)
        (message ("write " <> path <> ": "))
    require (chmod path 0o644) (message ("chmod " <> path <> ": "))
    return path

unfoldable pub remove_htpasswd : String → M (Unit {0})
remove_htpasswd subdomain = do
  r ← call (remove (htpasswd_path_for subdomain))
  when (not (succeeded r) && not r.not_exist)
      (fail (message ("remove " <> htpasswd_path_for subdomain <> ": ") r))
