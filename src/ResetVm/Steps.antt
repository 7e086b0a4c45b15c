-- ===== src/ResetVm/Steps.antt =====
-- The four steps of `Reset`.
use vmkit_agent.Base.{
  ℕ, String, ◌<>◌, Bool, false, not, ◌&&◌, ◌||◌, none, some, List, [], ◌∷◌, ◌++◌, contains,
  starts_with, is_empty, join, trim_space, itoa, ℤ, pos, int_eq, if◌then◌else◌,
}
use vmkit_agent.Host.{
  read_dir, glob, DirEntry, Reply, Outcome, ok, err, M, ◌>>=◌, ◌>>◌, return, fail, call, require,
  when, succeeded, error_text, cmd, message,
}
use vmkit_agent.Ufw.Rules.{ExistingRule}
use vmkit_agent.Ufw.Parse.{parse_all_ufw_allow_rules}
use vmkit_agent.Ufw.Sort.{sort_strings}
use vmkit_agent.Ufw.Purge.{sudo_status, delete_rules, numbers_of}
use vmkit_agent.Destroy.{DestroyConfig, destroy}

-- the directories that are instances
subdirs : List DirEntry → List String
subdirs [] = []
subdirs (e ∷ es) =
    let rest = subdirs es in
    if not e.is_dir || is_empty e.name || starts_with e.name "." then rest else e.name ∷ rest

subdirs_of : String → Reply → M (List String)
subdirs_of base r = elim r.error [
  | none ↦ return (sort_strings (subdirs r.entries))
  | some e ↦ if r.not_exist then return [] else fail ("read base dir " <> base <> ": " <> e)
]

unfoldable pub list_instance_subdirs : String → M (List String)
unfolding subdirs subdirs_of
list_instance_subdirs base = do r ← call (read_dir base); subdirs_of base r

abbrev destroy_config : String → String → DestroyConfig
destroy_config base sub = record {
  instance_id = sub;
  subdomain = sub;
  base_dir = base;
  postgres_port = pos 0;
}

-- The loop over the instances, which goes on after a failure: what failed so far is `failed`.
unfoldable pub purge_each : String → List String → List String → M (List String)
purge_each base [] failed = return failed
purge_each base (sub ∷ subs) failed = do
  dr ← destroy (destroy_config base sub)
  purge_each base subs
      (if dr.success then failed else failed ++ (sub <> ": " <> dr.error_message) ∷ [])

abbrev none_failed : List String → M (Unit {0})
none_failed [] = return tt
none_failed (f ∷ fs) = fail ("destroy failed for: " <> join "; " (f ∷ fs))

unfoldable pub purge_listed : String → Outcome (List String) → M (Unit {0})
purge_listed base (err e) = fail e
purge_listed base (ok subs) = do failed ← purge_each base subs []; none_failed failed

-- Docker is not there.
abbrev no_docker : Reply → Bool
no_docker r =
    contains r.output "command not found" || contains (error_text r) "executable file not found"

unfoldable pub prune : String → M (Unit {0})
prune target = do
  r ← call (cmd 0 ("sudo" ∷ "docker" ∷ target ∷ "prune" ∷ "-f" ∷ []))
  when (not (succeeded r) && not (no_docker r)) (
      fail
        ("docker " <> target <> " prune: " <> error_text r <> " (" <> trim_space r.output <> ")"))

unfoldable pub prune_docker : M (Unit {0})
prune_docker = do prune "network"; prune "volume"

abbrev pub allows : List ℤ → ExistingRule → Bool
allows [] r = false
allows (p ∷ ps) r = int_eq (pos r.port) p || allows ps r

-- `PlanUFWReset`
unfoldable pub plan_ufw_reset : List ExistingRule → List ℤ → List ℕ
plan_ufw_reset rules allowed = numbers_of (λ r. not (allows allowed r)) rules

abbrev pub delete_text : ℕ → Reply → String
delete_text n r =
    "ufw delete " <> itoa n <> ": " <> error_text r <> " (" <> trim_space r.output <> ")"

unfoldable pub delete_planned : List ℕ → M (List ℕ)
delete_planned to_delete = do delete_rules delete_text to_delete; return to_delete

-- The part behind `ufw status`
unfoldable pub reset_listed : List ℤ → Reply → M (List ℕ)
reset_listed allowed r = elim r.error [
  | none ↦ delete_planned (plan_ufw_reset (parse_all_ufw_allow_rules r.output) allowed)
  | some e ↦
      if contains e "executable file not found"
      then return []
      else fail ("ufw status: " <> e <> " (" <> trim_space r.output <> ")")
]

unfoldable pub reset_ufw : List ℤ → M (List ℕ)
reset_ufw allowed = do r ← call sudo_status; reset_listed allowed r

-- The loop over the files of a pattern, behind the files removed so far
unfoldable pub remove_matches : List DirEntry → List String → M (List String)
remove_matches [] removed = return removed
remove_matches (m ∷ ms) removed = do
  require (cmd 0 ("sudo" ∷ "rm" ∷ "-f" ∷ m.name ∷ []))
      (λ r. "rm " <> m.name <> ": " <> error_text r <> " (" <> trim_space r.output <> ")")
  remove_matches ms (removed ++ m.name ∷ [])

unfoldable pub sweep : List String → List String → M (List String)
sweep [] removed = return removed
sweep (pattern ∷ patterns) removed = do
  matches ← require (glob pattern) (message ("glob " <> pattern <> ": "))
  more ← remove_matches matches.entries removed
  sweep patterns more

abbrev stale_patterns : List String
stale_patterns =
    "/tmp/supabyoi-*.json" ∷ "/tmp/deploy-*.json" ∷ "/tmp/destroy-*.json" ∷ "/tmp/backup-*.json"
    ∷ "/tmp/restore-*.json" ∷ "/tmp/harden-*.json" ∷ "/tmp/cleanup-*.json" ∷ "/tmp/verify-*.json"
    ∷ "/tmp/upgrade-*.json" ∷ "/tmp/rotate-*.json" ∷ "/tmp/open-port-*.json"
    ∷ "/tmp/update-allowlist-*.json" ∷ "/tmp/reset-vm-*.json" ∷ "/etc/supabyoi/backup-*.env" ∷ []

unfoldable pub cleanup_stale_configs : M (List String)
cleanup_stale_configs = do removed ← sweep stale_patterns []; return (sort_strings removed)
