-- ===== src/Destroy/Steps.antt =====
-- The seven steps of `Destroy`.
use vmkit_agent.Base.{
  ℕ, String, ◌<>◌, Bool, false, not, ◌&&◌, ◌||◌, none, some, List, [], ◌∷◌, contains, is_empty,
  join_path, trim_space, itoa, ℤ, pos, int_eq, show_int, if◌then◌else◌,
}
use vmkit_agent.Host.{
  Call, exec, Reply, Outcome, ok, err, M, ◌>>=◌, ◌>>◌, return, fail, call, when, best_effort,
  attempt, succeeded, error_text, cmd,
}
use vmkit_agent.Compose.{compose_stop}
use vmkit_agent.Nginx.{remove_site_config}
use vmkit_agent.Ufw.Parse.{parse_ufw_rules_for_port}
use vmkit_agent.Ufw.Sort.{sort_desc}
use vmkit_agent.Ufw.Diff.Exact.{numbers}
use vmkit_agent.Ufw.Purge.{sudo_status, delete_rules}

contains_any : String → List String → Bool
contains_any text [] = false
contains_any text (p ∷ ps) = contains text p || contains_any text ps

-- `isIgnorableError` of an error's text
unfoldable pub is_ignorable : String → Bool
unfolding contains_any contains
is_ignorable e = contains_any e (
    "no such file or directory" ∷ "does not exist" ∷ "not found" ∷ "no configuration file"
    ∷ "cannot find" ∷ [])

abbrev unless_ignorable : (String → String) → Outcome (Unit {0}) → M (Unit {0})
unless_ignorable wrap (ok _) = return tt
unless_ignorable wrap (err e) = if is_ignorable e then return tt else fail (wrap e)

-- A command whose error is ignored if it is about a missing thing.
unfoldable pub tolerate : Call → (Reply → String) → M (Unit {0})
tolerate c wrap = do
  r ← call c
  when (not (succeeded r) && not (is_ignorable (error_text r))) (fail (wrap r))

unfoldable pub stop_containers : String → M (Unit {0})
stop_containers dir = do
  r ← attempt (compose_stop dir)
  unless_ignorable (λ e. "failed to stop containers: " <> e) r

abbrev with_all_output : String → Reply → String
with_all_output prefix r = prefix <> error_text r <> ". Output: " <> r.output

unfoldable pub remove_volumes : String → M (Unit {0})
remove_volumes dir =
    tolerate (exec dir 0 ("sudo" ∷ "docker" ∷ "compose" ∷ "down" ∷ "-v" ∷ "--remove-orphans" ∷ []))
      (with_all_output "failed to remove volumes: ")

unfoldable pub remove_nginx_config : String → M (Unit {0})
remove_nginx_config subdomain = do
  r ← attempt (remove_site_config subdomain)
  unless_ignorable (λ e. "failed to remove nginx config: " <> e) r

abbrev pub remove_tree : String → Call
remove_tree path = cmd 0 ("sudo" ∷ "rm" ∷ "-rf" ∷ path ∷ [])

abbrev remove_certs_at : String → M (Unit {0})
remove_certs_at dir =
    tolerate (remove_tree dir) (with_all_output ("failed to remove TLS certs at " <> dir <> ": "))

unfoldable pub remove_tls_certs : String → String → M (Unit {0})
remove_tls_certs domain studio_domain = do
  remove_certs_at (join_path "/etc/letsencrypt/live" domain)
  remove_certs_at (join_path "/etc/letsencrypt/live" studio_domain)

unfoldable pub cleanup_directory : String → M (Unit {0})
cleanup_directory dir = tolerate (remove_tree dir) (with_all_output "failed to remove directory: ")

abbrev pub delete_failed : ℤ → ℕ → Reply → String
delete_failed port n r =
    "ufw delete "
    <> itoa n
    <> " (port "
    <> show_int port
    <> "/tcp) failed: "
    <> error_text r
    <> " ("
    <> trim_space r.output
    <> ")"

-- The part behind `ufw status`
unfoldable pub close_listed : ℤ → Reply → M (Unit {0})
close_listed port r = elim r.error [
  | some e ↦
      if is_ignorable e
      then return tt
      else fail ("ufw status failed: " <> e <> " (" <> trim_space r.output <> ")")
  | none ↦
      delete_rules (delete_failed port)
        (sort_desc (numbers (parse_ufw_rules_for_port r.output port "tcp")))
]

unfoldable pub close_firewall_port : ℤ → M (Unit {0})
close_firewall_port port =
    if int_eq port (pos 0) then return tt else (do r ← call sudo_status; close_listed port r)

-- The identifiers that `docker ps` prints are handed on as one argument.
abbrev remove_listed : Reply → M (Unit {0})
remove_listed r = elim r.error [
  | some e ↦ return tt
  | none ↦ do
    when (not (is_empty r.output))
        (best_effort (cmd 0 ("sudo" ∷ "docker" ∷ "rm" ∷ "-f" ∷ r.output ∷ [])))
    best_effort (cmd 0 ("sudo" ∷ "docker" ∷ "network" ∷ "prune" ∷ "-f" ∷ []))
]

unfoldable pub cleanup_orphans : String → M (Unit {0})
cleanup_orphans subdomain = do
  r ←
      call
        (cmd 0 ("sudo" ∷ "docker" ∷ "ps" ∷ "-a" ∷ "--filter" ∷ ("name=" <> subdomain) ∷ "-q" ∷ []))
  remove_listed r
