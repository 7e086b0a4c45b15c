-- ===== src/Destroy.antt =====
-- internal/destroy/destroy.go: an instance is taken off the machine in seven steps, up to the first
-- that fails. The calls into internal/compose and internal/nginx are modelled with it.
pub mod Steps
pub mod Laws
pub mod Firewall
use vmkit_agent.Base.{
  String, ◌<>◌, Bool, true, false, not, List, [], ◌∷◌, ◌++◌, is_empty, join_path, ℤ, if◌then◌else◌,
}
use vmkit_agent.Types.{StepResult, in_progress, completed, failed}
use vmkit_agent.Host.{Outcome, ok, err, M, ◌>>=◌, ◌>>◌, return, attempt}
use vmkit_agent.Destroy.Steps.{
  stop_containers, remove_volumes, remove_nginx_config, remove_tls_certs, cleanup_directory,
  cleanup_orphans, close_firewall_port,
}

pub record DestroyConfig : Type 0 where
  pub instance_id : String
  pub subdomain : String
  pub base_dir : String
  pub postgres_port : ℤ

pub record DestroyResult : Type 0 where
  pub success : Bool
  pub instance_id : String
  pub steps : List StepResult
  pub error_message : String
  pub failed_step : String

pub record DestructionStep : Type 0 where
  pub name : String
  pub function : M (Unit {0})

unfoldable pub step_result : String → Outcome (Unit {0}) → StepResult
step_result name (ok _) = record {
  name = name;
  status = completed;
  message = "Successfully completed";
}
step_result name (err e) = record { name = name; status = failed; message = "Failed: " <> e }

unfoldable pub execute_step : DestructionStep → M StepResult
unfolding step_result
execute_step s = do r ← attempt s.function; return (step_result s.name r)

abbrev pub instance_dir : DestroyConfig → String
instance_dir cfg =
    join_path (if is_empty cfg.base_dir then "/opt/supabase" else cfg.base_dir) cfg.subdomain

unfoldable pub steps_of : DestroyConfig → List DestructionStep
steps_of cfg =
    let dir = instance_dir cfg in
    let domain = cfg.subdomain <> ".supabyoi.com" in
    record { name = "stop_containers"; function = stop_containers dir }
    ∷ record { name = "remove_volumes"; function = remove_volumes dir }
    ∷ record { name = "remove_nginx"; function = remove_nginx_config cfg.subdomain }
    ∷ record {
      name = "remove_tls_certs";
      function = remove_tls_certs domain ("studio-" <> cfg.subdomain <> ".supabyoi.com");
    }
    ∷ record { name = "cleanup_directory"; function = cleanup_directory dir }
    ∷ record { name = "cleanup_orphans"; function = cleanup_orphans cfg.subdomain }
    ∷ record { name = "close_firewall_port"; function = close_firewall_port cfg.postgres_port }
    ∷ []

-- The loop over the steps: `rest` is what follows if this step did not fail.
unfoldable pub record_step :
    DestroyResult → StepResult → (DestroyResult → M DestroyResult) → M DestroyResult
record_step result r rest =
    let added = record result { steps = result.steps ++ r ∷ [] } in
    elim r.status [
      | failed ↦
          return (record added { success = false; failed_step = r.name; error_message = r.message })
      | completed ↦ rest added
      | in_progress ↦ rest added
    ]

unfoldable pub execute_all : List DestructionStep → DestroyResult → M DestroyResult
execute_all [] result = return result
execute_all (s ∷ ss) result = do r ← execute_step s; record_step result r (execute_all ss)

unfoldable pub destroy : DestroyConfig → M DestroyResult
destroy cfg = execute_all (steps_of cfg) (record {
  success = true;
  instance_id = cfg.instance_id;
  steps = [];
  error_message = "";
  failed_step = "";
})
