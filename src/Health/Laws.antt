-- ===== src/Health/Laws.antt =====
-- One round of checks: what it answers, and how often it asks the database.
use vmkit_agent.Base.{
  ℕ, ◌+◌, String, Bool, true, false, ◌&&◌, List, [], ◌∷◌, ◌++◌, ◌≡◌, refl, ap, ◌∙◌, arith, ◌==ₛ◌,
  if◌then◌else◌,
}
use vmkit_agent.Host.{Call, exec, Host, Trace, ok}
use vmkit_agent.Health.Round.{
  ServiceHealth, HealthCheckResult, CheckConfig, check_container_states, inspect, suffixes_of,
  container_health, container_name, check_services, gathered, with_service, with_services,
  run_health_checks,
}

-- All services but the last, which is the studio, are healthy.
abbrev pub required_healthy : List ServiceHealth → Bool
required_healthy [] = true
required_healthy (s ∷ []) = true
required_healthy (s ∷ t ∷ ss) = s.healthy && required_healthy (t ∷ ss)

-- The call asks the database of an instance whether it is ready.
abbrev pub asks_database : Call → Bool
asks_database (exec dir limit (a ∷ b ∷ c ∷ d ∷ e ∷ f ∷ g)) = (c ==ₛ "exec") && (f ==ₛ "pg_isready")
asks_database _ = false

abbrev pub count_calls : (Call → Bool) → Trace → ℕ
count_calls p [] = 0
count_calls p (c ∷ w) = if p c then count_calls p w + 1 else count_calls p w

abbrev all_healthy_of : List ServiceHealth → Bool
all_healthy_of [] = true
all_healthy_of (s ∷ ss) = s.healthy && all_healthy_of ss

required-append :
    (ss : List ServiceHealth) (s : ServiceHealth)
    → required_healthy (ss ++ s ∷ []) ≡ all_healthy_of ss
required-append [] s = refl
required-append (t ∷ []) s = ground arith
required-append (t ∷ u ∷ ss) s = ground (arith, required-append (u ∷ ss) s)

all-append :
    (ss : List ServiceHealth) (s : ServiceHealth)
    → all_healthy_of (ss ++ s ∷ []) ≡ (all_healthy_of ss && s.healthy)
all-append [] s = ground arith
all-append (t ∷ ss) s = ground (arith, all-append ss s)

abbrev Counts : HealthCheckResult → Type 0
Counts r = r.all_healthy ≡ all_healthy_of r.services

with_service-Counts :
    (s : ServiceHealth) (r : HealthCheckResult) → Counts r → Counts (with_service true s r)
with_service-Counts s r h = ground (arith, all-append r.services s)

with_services-Counts :
    (ss : List ServiceHealth) (r : HealthCheckResult) → Counts r → Counts (with_services ss r)
with_services-Counts [] r h = h
with_services-Counts (s ∷ ss) r h = with_services-Counts ss _ (with_service-Counts s r h)

-- The studio does not count.
with_studio :
    (s : ServiceHealth) (r : HealthCheckResult)
    → Counts r
    → (with_service false s r).all_healthy ≡ required_healthy (with_service false s r).services
with_studio s r h = ground (arith, required-append r.services s)

gathered-tells :
    (ss : List ServiceHealth) (p k s : ServiceHealth)
    → (gathered ss p k s).all_healthy ≡ required_healthy (gathered ss p k s).services
unfolding gathered
gathered-tells ss p k s =
    let start : HealthCheckResult = record { all_healthy = true; services = [] } in
    let first = with_services ss start in
    let second = with_service true p first in
    with_studio s (with_service true k second) (
      with_service-Counts k second
        (with_service-Counts p first (with_services-Counts ss start refl)))

states-calls :
    (subdomain : String) (suffixes : List String) (host : Host) (w : Trace)
    → let o = check_container_states subdomain suffixes host w in
      (ss : List ServiceHealth) × (o.0 ≡ ok ss)
      × (count_calls asks_database o.1 ≡ count_calls asks_database w)
unfolding check_container_states
states-calls subdomain [] host w = ([], refl, refl)
states-calls subdomain (suffix ∷ suffixes) host w =
    let (ss, fine, same) = states-calls subdomain suffixes host (inspect subdomain suffix ∷ w) in
    (
      container_health (container_name subdomain suffix) (host (inspect subdomain suffix) w) ∷ ss,
      rw fine refl,
      rw fine same,
    )

-- What a round answers
pub record IsRound (cfg : CheckConfig) (host : Host) (w : Trace) : Type 0 where
  pub result : HealthCheckResult
  pub answers : (run_health_checks cfg host w).0 ≡ ok result
  pub tells : result.all_healthy ≡ required_healthy result.services
  pub once :
      count_calls asks_database (run_health_checks cfg host w).1 ≡ count_calls asks_database w + 1

Answers : CheckConfig → List ServiceHealth → Host → Trace → Type 0
Answers cfg ss host w =
    (r : HealthCheckResult) × ((check_services cfg ss host w).0 ≡ ok r)
    × (r.all_healthy ≡ required_healthy r.services)
    × (count_calls asks_database (check_services cfg ss host w).1 ≡ count_calls asks_database w + 1)

services-Answers :
    (cfg : CheckConfig) (ss : List ServiceHealth) (host : Host) (w : Trace) → Answers cfg ss host w
unfolding Answers check_services
services-Answers cfg ss host w = (_, refl, gathered-tells ss _ _ _, refl)

pub run_health_checks-IsRound : (cfg : CheckConfig) (host : Host) (w : Trace) → IsRound cfg host w
unfolding run_health_checks Answers
run_health_checks-IsRound cfg host w =
    let o = check_container_states cfg.subdomain (suffixes_of cfg) host w in
    let (ss, fine, same) = states-calls cfg.subdomain (suffixes_of cfg) host w in
    let (r, answers, tells, once) = services-Answers cfg ss host o.1 in
    record {
      result = r;
      answers = rw fine answers;
      tells = tells;
      once = rw fine (once ∙ ap (λ n. n + 1) same);
    }
