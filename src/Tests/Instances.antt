-- ===== src/Tests/Instances.antt =====
-- The containers of an instance, its state and its health on concrete machines.
use vmkit_agent.Base.{
  ◌+◌, ◌≤◌, String, false, Option, none, some, List, [], ◌∷◌, ◌++◌, ◌≡◌, ◌≢◌, arith,
}
use vmkit_agent.Host.{Trace, ok}
use vmkit_agent.Host.Time.{slept, IsClock}
use vmkit_agent.Tests.Machines.{server}
use vmkit_agent.Compose.Status.{ContainerInfo, ContainerStatus}
use vmkit_agent.Compose.Waiting.{wait_for_containers, wait_for_containers-ne-false}
use vmkit_agent.Instance.{scan, state_of, empty_scan, lookup}
use vmkit_agent.Instance.Laws.{state_of-scan}
use vmkit_agent.Health.Round.{default_check_config}
use vmkit_agent.Health.{check_all}
use vmkit_agent.Health.Attempts.{IsAnswer, check_all-IsAnswer}

slept-append : (cs w : Trace) → slept w + slept cs ≤ slept (cs ++ w)
slept-append [] w = omega arith
slept-append (c ∷ cs) w = ground (arith, slept-append cs w)

server-IsClock : IsClock server
server-IsClock = record { advances = slept-append }

abbrev no_json : String → Option ContainerInfo
no_json line = none

-- The containers never run on this machine, so the wait ends with an error.
wait_for_containers-ne-false_example :
    (wait_for_containers no_json (λ n. "4s") "/opt/supabase/acme" 4000000000 server []).0 ≢ ok false
wait_for_containers-ne-false_example =
    wait_for_containers-ne-false no_json (λ n. "4s") server server-IsClock "/opt/supabase/acme"
      4000000000 []

abbrev container : String → String → ContainerStatus
container name state = record { name = name; state = state; health = "" }

abbrev two_of_three : List ContainerStatus
two_of_three =
    container "db" "running" ∷ container "kong" "exited" ∷ container "studio" "running" ∷ []

state_of-scan_example :
    (state_of two_of_three (scan two_of_three empty_scan) ≡ "degraded")
    × (lookup "kong" (scan two_of_three empty_scan).checks ≡ some false)
state_of-scan_example = state_of-scan two_of_three "kong"

check_all-IsAnswer_example :
    IsAnswer 31 []
      (check_all (default_check_config "acme") server []).1
      (check_all (default_check_config "acme") server []).0
unfolding default_check_config
check_all-IsAnswer_example = check_all-IsAnswer (default_check_config "acme") server []
