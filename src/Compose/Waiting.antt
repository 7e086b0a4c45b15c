-- ===== src/Compose/Waiting.antt =====
-- `WaitForContainers`: the loop ends when the clock has passed the deadline.
use vmkit_agent.Base.{
  ℕ, zero, suc, ◌+◌, ◌*◌, ◌/◌, ◌≤◌, String, ◌<>◌, Bool, true, false, Option, [], ◌∷◌, ◌≡◌, ◌≢◌,
  arith, ltb, if◌then◌else◌, Bool-cases, inl, inr,
}
use vmkit_agent.Host.{
  Call, clock, sleep, Host, Trace, ok, M, ◌>>=◌, ◌>>◌, return, fail, call, best_effort,
  Outcome-cases,
}
use vmkit_agent.Host.Time.{IsClock}
use vmkit_agent.Compose.{compose_call}
use vmkit_agent.Compose.Status.{ContainerInfo, is_running}

-- The text of a `time.Duration`, of so many nanoseconds
module _ (unmarshal : String → Option ContainerInfo) (show_duration : ℕ → String) where
  -- So many more rounds may follow; where they would not be enough, the answer is `false`, which
  -- `wait-enough` excludes.
  unfoldable pub wait_loop : ℕ → String → ℕ → ℕ → M Bool
  wait_loop zero dir timeout deadline = do
    t ← call clock
    if ltb t.number deadline
        then return false
        else fail ("containers did not start within " <> show_duration timeout)
  wait_loop (suc fuel) dir timeout deadline = do
    t ← call clock
    let rest : M Bool = do best_effort (sleep 2000); wait_loop fuel dir timeout deadline
    let round : M Bool = do
      running ← is_running unmarshal dir
      if running then return true else rest
    if ltb t.number deadline
        then round
        else fail ("containers did not start within " <> show_duration timeout)

  -- A round for each two seconds of the timeout, and one more
  abbrev pub rounds : ℕ → ℕ
  rounds timeout = timeout / 2000000000 + 1

  unfoldable pub wait_for_containers : String → ℕ → M Bool
  unfolding wait_loop
  wait_for_containers dir timeout = do
    t ← call clock
    wait_loop (rounds timeout) dir timeout (t.number + timeout)

  module _ (host : Host) (ticks : IsClock host) (dir : String) (timeout : ℕ) where
    abbrev ps : Call
    ps = compose_call dir ("ps" ∷ "--format" ∷ "json" ∷ [])

    is_running-calls : (w : Trace) → (is_running unmarshal dir host w).1 ≡ ps ∷ w
    unfolding is_running
    is_running-calls w = ground arith

    wait_loop-enough :
        (fuel deadline : ℕ) (w : Trace)
        → deadline ≤ (host clock w).number + fuel * 2000000000
        → (wait_loop fuel dir timeout deadline host w).0 ≢ ok false
    unfolding wait_loop
    wait_loop-enough zero deadline w h = ground arith
    wait_loop-enough (suc fuel) deadline w h =
        let later = ticks.advances (sleep 2000 ∷ ps ∷ clock ∷ []) w in
        let more = wait_loop-enough fuel deadline (sleep 2000 ∷ ps ∷ clock ∷ w) (omega arith) in
        elim (Bool-cases (ltb (host clock w).number deadline)) [
          | inl early ↦ elim (Outcome-cases (is_running unmarshal dir host (clock ∷ w)).0) [
            | inl (running, fine) ↦ elim (Bool-cases running) [
              | inl yes_running ↦ rw (early, fine, yes_running) (λ e. cc)
              | inr not_yet ↦ rw (early, fine, not_yet, is_running-calls (clock ∷ w)) more
            ]
            | inr (e, bad) ↦ rw (early, bad) (λ e. cc)
          ]
          | inr late ↦ rw late (λ e. cc)
        ]

    -- Where the clock never goes back and a sleep takes its time, `WaitForContainers` ends: after at
    -- most so many rounds the containers run, or it returns an error.
    pub wait_for_containers-ne-false :
        (w : Trace) → (wait_for_containers dir timeout host w).0 ≢ ok false
    unfolding wait_for_containers
    wait_for_containers-ne-false w =
        let later = ticks.advances (clock ∷ []) w in
        wait_loop-enough (rounds timeout) ((host clock w).number + timeout) (clock ∷ w)
          (omega arith)
