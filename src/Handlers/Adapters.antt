-- ===== src/Handlers/Adapters.antt =====
-- handlers.go and agent_upgrade.go: the requests that run one operation. JSON is read by a parameter;
-- the result goes to the gateway only where there is no error beside it.
use vmkit_agent.Base.{String, ◌<>◌, Bool, Option, none, some, if◌then◌else◌}
use vmkit_agent.Host.{Outcome, ok, err, M, ◌>>=◌, return}
use vmkit_agent.Harden.Config.{HardenConfig, HardenResult}
use vmkit_agent.Harden.Run.{harden}
use vmkit_agent.OpenPort.{OpenPortConfig, OpenPortResult, open_port}
use vmkit_agent.SelfUpgrade.{UpgradeConfig, UpgradeResult, run}
use vmkit_agent.EnableTls.Steps.{EnableTlsConfig, Order}
use vmkit_agent.EnableTls.{EnableTlsResult, enable_tls}
use vmkit_agent.RotateCreds.EnvFile.{RotateConfig, Env}
use vmkit_agent.RotateCreds.{RotateResult, rotate_credentials}

-- The two results of a handler
abbrev pub Answer : Type 0 → Type 0
Answer A = Option A × Option String

abbrev error_unless : Bool → String → Option String
error_unless success text = if success then none else some text

abbrev run_read : {C A : Type 0} → (C → M A) → (A → Option String) → Outcome C → M (Answer A)
run_read act fault (err e) = return (none, some ("invalid params: " <> e))
run_read act fault (ok cfg) = do r ← act cfg; return (some r, fault r)

unfoldable pub vm_harden : (String → Outcome HardenConfig) → String → M (Answer HardenResult)
vm_harden unmarshal params =
    run_read harden (λ r. error_unless r.success ("harden failed: " <> r.error_message))
      (unmarshal params)

unfoldable pub vm_open_port : (String → Outcome OpenPortConfig) → String → M (Answer OpenPortResult)
vm_open_port unmarshal params =
    run_read open_port (λ r. error_unless r.success ("open-port failed: " <> r.error_message))
      (unmarshal params)

-- The architecture, SHA-256, and the version of the agent
unfoldable pub agent_upgrade :
    String
    → (String → String)
    → String
    → (String → Outcome UpgradeConfig)
    → String
    → M (Answer UpgradeResult)
agent_upgrade goarch digest version unmarshal params =
    run_read (λ cfg. run goarch digest cfg version "")
      (λ r. error_unless r.success ("agent upgrade failed: " <> r.error)) (unmarshal params)

-- SHA-1 in base 64, and the order in which Go visits the files of a certificate
unfoldable pub tls_issue :
    (String → String)
    → Order
    → (String → Outcome EnableTlsConfig)
    → String
    → M (Answer EnableTlsResult)
tls_issue sha1 order unmarshal params =
    run_read (enable_tls sha1 order)
      (λ r. error_unless r.success ("tls failed: " <> r.error_message)) (unmarshal params)

-- The order in which Go visits a map
unfoldable pub creds_rotate :
    (Env → Env) → (String → Outcome RotateConfig) → String → M (Answer RotateResult)
creds_rotate order unmarshal params =
    run_read (rotate_credentials order)
      (λ r. error_unless r.success ("rotate-credentials failed: " <> r.error_message))
      (unmarshal params)
