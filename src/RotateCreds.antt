-- ===== src/RotateCreds.antt =====
-- internal/rotatecreds/rotatecreds.go: new credentials are written into an instance's environment
-- file, and the containers that read them are restarted.
pub mod EnvFile
pub mod Laws
pub mod Order
use vmkit_agent.Base.{
  ℕ, zero, suc, String, ◌<>◌, Bool, true, false, not, ◌&&◌, ◌||◌, List, [], ◌∷◌, ◌++◌, ◌==ₛ◌, ◌==◌,
  contains, is_empty, join, join_path, split_at, if◌then◌else◌,
}
use vmkit_agent.Types.{StepResult, completed, failed}
use vmkit_agent.Host.{
  Call, exec, stat, open_file, read_opened, close_file, write_file, sleep, Reply, succeeded,
  finally, Outcome, ok, err, M, ◌>>=◌, ◌>>◌, return, fail, ensure, call, require, of_outcome,
  best_effort, attempt, when, error_text, message,
}
use vmkit_agent.RotateCreds.EnvFile.{RotateConfig, Env, has_long, read_env, updated, render}

pub record RotateResult : Type 0 where
  pub success : Bool
  pub instance_id : String
  pub steps : List StepResult
  pub error_message : String
  pub failed_step : String

abbrev pub containers_of : String → List String
containers_of type =
    if type ==ₛ "postgres"
    then "postgres" ∷ []
    else if type ==ₛ "jwt"
    then "kong" ∷ []
    else if type ==ₛ "api_keys"
    then "kong" ∷ []
    else "postgres" ∷ "kong" ∷ "studio" ∷ []

unfoldable pub restart_each : String → List String → M (Unit {0})
restart_each dir [] = return tt
restart_each dir (c ∷ cs) = do
  require (exec dir 0 ("sudo" ∷ "docker-compose" ∷ "restart" ∷ c ∷ []))
      (λ r. "failed to restart " <> c <> ": " <> error_text r <> " (output: " <> r.output <> ")")
  restart_each dir cs

unfoldable pub restart_containers : String → List String → M (Unit {0})
restart_containers dir cs = do restart_each dir cs; best_effort (sleep 2000)

-- So many attempts are left.
unfoldable pub await_healthy : ℕ → String → String → M (Unit {0})
await_healthy zero dir c = fail ("container " <> c <> " did not become healthy after restart")
await_healthy (suc left) dir c = do
  r ←
      require (exec dir 0 ("sudo" ∷ "docker-compose" ∷ "ps" ∷ c ∷ []))
        (message ("failed to check " <> c <> " status: "))
  when (not (contains r.output "Up" || contains r.output "healthy"))
      (do when (not (left == 0)) (best_effort (sleep 2000)); await_healthy left dir c)

unfoldable pub verify_each : String → List String → M (Unit {0})
verify_each dir [] = return tt
verify_each dir (c ∷ cs) = do await_healthy 30 dir c; verify_each dir cs

abbrev passed_as : String → String → RotateResult → RotateResult
passed_as name note r = record r {
  steps = r.steps ++ record { name = name; status = completed; message = note } ∷ [];
}

abbrev failed_as : String → String → RotateResult → RotateResult
failed_as name e r = record r {
  steps = r.steps ++ record { name = name; status = failed; message = e } ∷ [];
  error_message = e;
  failed_step = name;
}

-- What follows a step
unfoldable pub step :
    String
    → String
    → (RotateResult → M RotateResult)
    → RotateResult
    → Outcome (Unit {0})
    → M RotateResult
step name note next result (ok _) = next (passed_as name note result)
step name note next result (err e) = return (failed_as name e result)

-- The check that a path is there: no other error counts.
abbrev exists : String → String → M (Unit {0})
exists path e = do r ← call (stat path); ensure (not r.not_exist) e

abbrev or_text : String → M (Unit {0}) → M (Unit {0})
or_text prefix m = do
  r ← attempt m
  of_outcome (elim r [ ok _ ↦ ok tt | err e ↦ err (prefix <> e) ])

-- The order in which Go visits a map
module _ (order : Env → Env) where
  -- The file stays open while its successor is written; the texts of a line that is too long and of
  -- a failed read are those of `scanner.Err`.
  unfoldable pub update_env_file : String → RotateConfig → M (Unit {0})
  update_env_file path cfg = do
    require (open_file path) (message "failed to open .env file: ")
    finally (close_file path) (do
      r ← call (read_opened path)
      let lines = split_at b'\n' r.output
      ensure (not (has_long lines)) "failed to read .env file: bufio.Scanner: token too long"
      ensure (succeeded r) (message "failed to read .env file: " r)
      env ← of_outcome (updated cfg (read_env lines []))
      require (write_file path (render order env) 0o644) (message "failed to write .env file: ")
      return tt)

  unfoldable pub verify_step : String → List String → RotateResult → M RotateResult
  verify_step dir cs result = do
    r ← attempt (or_text "Health check failed: " (verify_each dir cs))
    step "verify_health" "All containers healthy" (λ done. return (record done { success = true }))
        result r

  unfoldable pub restart_step : String → List String → RotateResult → M RotateResult
  restart_step dir cs result = do
    r ← attempt (or_text "Failed to restart containers: " (restart_containers dir cs))
    step "restart_containers" ("Restarted containers: " <> join ", " cs) (verify_step dir cs) result
        r

  unfoldable pub update_step : String → RotateConfig → RotateResult → M RotateResult
  update_step dir cfg result = do
    r ←
        attempt
          (or_text "Failed to update .env file: " (update_env_file (join_path dir ".env") cfg))
    step "update_credentials" "Credentials updated in .env file"
        (restart_step dir (containers_of cfg.credential_type)) result r

  unfoldable pub env_step : String → RotateConfig → RotateResult → M RotateResult
  env_step dir cfg result = do
    let path = join_path dir ".env"
    r ← attempt (exists path (".env file not found: " <> path))
    step "validate_env_file" ".env file validated" (update_step dir cfg) result r

  abbrev pub dir_of : RotateConfig → String
  dir_of cfg =
      join_path (if is_empty cfg.base_dir then "/opt/supabase" else cfg.base_dir) cfg.instance_id

  unfoldable pub rotate_credentials : RotateConfig → M RotateResult
  rotate_credentials cfg = do
    r ← attempt (exists (dir_of cfg) ("Instance directory not found: " <> dir_of cfg))
    step "validate_instance" "Instance directory validated" (env_step (dir_of cfg) cfg)
        (record {
          success = false;
          instance_id = cfg.instance_id;
          steps = [];
          error_message = "";
          failed_step = "";
        })
        r
