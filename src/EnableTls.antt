-- ===== src/EnableTls.antt =====
-- internal/enabletls/enabletls.go: an instance that is there is served over HTTPS.
pub mod Steps
pub mod Gate
use vmkit_agent.Base.{String, ◌<>◌, Bool, true, false, not, List, [], ◌∷◌, is_empty}
use vmkit_agent.Types.{StepResult}
use vmkit_agent.Host.{Outcome, ok, M}
use vmkit_agent.Stage.{Flow, ◌>>=◌, ◌>>◌, return, stage, optional, begin, succeeds}
use vmkit_agent.EnableTls.Steps.{
  EnableTlsConfig, default_cert_dir, Order, write_certificate, configure_nginx_https,
}

pub record EnableTlsResult : Type 0 where
  pub success : Bool
  pub instance_id : String
  pub steps : List StepResult
  pub error_message : String
  pub failed_step : String

-- `executeStep`
abbrev pub execute_step : String → M (Unit {0}) → Flow (Unit {0}) (Unit {0})
execute_step name m = stage name (λ _. name <> " completed successfully") m

-- SHA-1 in base 64, and the order in which Go visits the files of a certificate
module _ (sha1 : String → String) (order : Order) where
  unfoldable pub enable_flow : EnableTlsConfig → Flow (Unit {0}) (Unit {0})
  enable_flow cfg = do
    execute_step "tls_write_main"
        (write_certificate order cfg.domain default_cert_dir cfg.cert_pem cfg.key_pem)
    optional (not (is_empty cfg.studio_domain)) (
        execute_step "tls_write_studio"
          (write_certificate order cfg.studio_domain default_cert_dir cfg.cert_pem cfg.key_pem))
    execute_step "nginx_https_config" (configure_nginx_https sha1 cfg)

  unfoldable pub enable_tls : EnableTlsConfig → M EnableTlsResult
  unfolding enable_flow
  enable_tls cfg host w =
      let (o, p, w') = enable_flow cfg host (begin tt) w in
      (
        ok (record {
          success = succeeds o;
          instance_id = cfg.instance_id;
          steps = p.steps;
          error_message = p.error_message;
          failed_step = p.failed_step;
        }),
        w',
      )
