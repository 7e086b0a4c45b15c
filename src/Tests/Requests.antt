-- ===== src/Tests/Requests.antt =====
-- internal/daemon/handlers and internal/enabletls on concrete machines.
use vmkit_agent.Base.{String, true, [], ◌∷◌, ◌≡◌, refl, pos, split_at, trim_space}
use vmkit_agent.Host.{Host, ok}
use vmkit_agent.Host.Log.{guarded}
use vmkit_agent.Tests.Machines.{printed, server, but}
use vmkit_agent.Handlers.{is_env_id}
use vmkit_agent.Handlers.Stop.{
  ContainersStopResult, Settles, listed, stop_one, stop_each, containers_stop,
  containers_stop-Settles,
}
use vmkit_agent.Handlers.Logs.{LogsFetchParams, name_of, logs_fetch}
use vmkit_agent.Handlers.Logs.Fetched.{IsReply, logs_fetch-IsReply}
use vmkit_agent.EnableTls.Steps.{EnableTlsConfig, Files}
use vmkit_agent.EnableTls.{enable_tls}
use vmkit_agent.EnableTls.Gate.{reloads, ready, enable_tls-gated}

abbrev as_is : String → String
as_is text = text

abbrev in_order : Files → Files
in_order files = files

-- The machine on which one of two containers can not be removed
abbrev stuck : Host
stuck = but (λ c w. printed "web-1\nweb-2\n") ("sudo" ∷ "docker" ∷ "rm" ∷ "web-1" ∷ [])

one_left :
    (containers_stop as_is "e1" stuck []).0
    ≡ ok (record { stopped = "web-2" ∷ []; errors = "rm web-1: " ∷ [] })
unfolding containers_stop stop_each stop_one is_env_id split_at trim_space
one_left = refl

containers_stop-Settles_example :
    (r : ContainersStopResult) × ((containers_stop as_is "e1" stuck []).0 ≡ ok r)
    × Settles stuck
        (containers_stop as_is "e1" stuck []).1
        (listed stuck "e1" [])
        r.stopped
        r.errors
unfolding is_env_id
containers_stop-Settles_example = containers_stop-Settles stuck as_is "e1" [] refl refl

abbrev of_app : LogsFetchParams
of_app = record { container = ""; tail = pos 5000; environment_id = "e1" }

logs_fetch-IsReply_example :
    IsReply
      (name_of of_app)
      []
      (logs_fetch as_is of_app server []).1
      (logs_fetch as_is of_app server []).0
logs_fetch-IsReply_example = logs_fetch-IsReply as_is of_app server []

abbrev https : EnableTlsConfig
https = record {
  instance_id = "i1";
  subdomain = "acme";
  domain = "acme.example.com";
  studio_domain = "studio-acme.example.com";
  cert_pem = "cert";
  key_pem = "key";
  kong_port = pos 0;
  studio_port = pos 13000;
  dashboard_username = "admin";
  dashboard_password = "secret";
}

enable_tls-gated_example :
    guarded reloads (ready https server) (enable_tls as_is in_order https server []).1 ≡ true
enable_tls-gated_example = enable_tls-gated https server as_is in_order
