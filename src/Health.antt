-- ===== src/Health.antt =====
-- internal/health/health.go: the checks of an instance, with retries. Times are nanoseconds; the
-- times and durations in the results, which nothing reads, are left out, but for the duration in
-- the error of `CheckAll`.
pub mod Round
pub mod Laws
pub mod Attempts
use vmkit_agent.Base.{
  ℕ, zero, suc, ◌+◌, ◌-◌, ◌*◌, ◌/◌, ◌^◌, String, ◌<>◌, Bool, true, false, Option, none, some, List,
  [], ◌∷◌, ltb, itoa, min, ◌==◌, not, ◌&&◌, if◌then◌else◌,
}
use vmkit_agent.Host.{
  Call, clock, elapsed, sleep, Reply, Outcome, ok, err, M, ◌>>=◌, ◌>>◌, return, call, best_effort,
  when,
}
use vmkit_agent.Health.Round.{CheckConfig, HealthCheckResult, run_health_checks}

-- The wait after an attempt, in seconds: `1<<min(attempt-1, 6)`, but at most 30
abbrev pub wait_seconds : ℕ → ℕ
wait_seconds attempt = min (2 ^ min (attempt - 1) 6) 30

-- The nanoseconds of a wait
abbrev pub wait_time : CheckConfig → ℕ → ℕ
wait_time cfg attempt =
    if cfg.use_exponential then wait_seconds attempt * 1000000000 else cfg.retry_interval

-- A result, and the error beside it
abbrev pub Checked : Type 0
Checked = HealthCheckResult × Option String

abbrev last_answer : ℕ → HealthCheckResult → String → Checked
last_answer attempt r took = (
  r,
  if r.all_healthy
      then none
      else some ("health checks failed after " <> itoa attempt <> " attempts (" <> took <> ")"),
)

-- "Final check to get detailed status"
unfoldable pub final_check : CheckConfig → ℕ → M Checked
final_check cfg attempt = do
  r ← run_health_checks cfg
  took ← call elapsed
  return (last_answer attempt r took.output)

-- The loop: so many attempts may follow, and so many were made.
unfoldable pub attempts : ℕ → CheckConfig → ℕ → ℕ → M Checked
attempts zero cfg deadline attempt = do call clock; final_check cfg attempt
attempts (suc left) cfg deadline attempt = do
  t ← call clock
  let again : M Checked = do
    t' ← call clock
    when (ltb (t'.number + wait_time cfg (attempt + 1)) deadline)
        (best_effort (sleep (wait_time cfg (attempt + 1) / 1000000)))
    attempts left cfg deadline (attempt + 1)
  let next : M Checked = if left == 0 then attempts left cfg deadline (attempt + 1) else again
  let round : M Checked = do
    r ← run_health_checks cfg
    if r.all_healthy then (do call elapsed; return (r, none)) else next
  if ltb t.number deadline then round else final_check cfg attempt

-- `CheckAll` of a configuration that is there
unfoldable pub check_all : CheckConfig → M Checked
check_all cfg = do t ← call clock; attempts cfg.max_retries cfg (t.number + cfg.timeout) 0
