-- ===== src/Daemon/Retry.antt =====
-- `Run`: how long it waits between two attempts to connect, in seconds.
use vmkit_agent.Base.{ℕ, ◌*◌, ◌≤◌, min, arith}

-- An attempt is made, a failed one is waited for, or the daemon was shut down.
pub data RunState : Type 0 where
  trying : ℕ → RunState
  waiting : ℕ → RunState
  stopped : RunState

-- `min(backoff*2, 60*time.Second)`
abbrev pub next_backoff : ℕ → ℕ
next_backoff b = min (b * 2) 60

pub data RunStep : RunState → RunState → Type 0 where
  connected : {b : ℕ} → RunStep (trying b) (trying 1)
  lost : {b : ℕ} → RunStep (trying b) (waiting b)
  elapsed : {b : ℕ} → RunStep (waiting b) (trying (next_backoff b))
  shut_trying : {b : ℕ} → RunStep (trying b) stopped
  shut_waiting : {b : ℕ} → RunStep (waiting b) stopped

pub data Runs : RunState → Type 0 where
  begun : Runs (trying 1)
  then_step : {s t : RunState} → Runs s → RunStep s t → Runs t

abbrev pub InBounds : RunState → Type 0
InBounds (trying b) = (1 ≤ b) × (b ≤ 60)
InBounds (waiting b) = (1 ≤ b) × (b ≤ 60)
InBounds stopped = Unit

RunStep-InBounds : {s t : RunState} → RunStep s t → InBounds s → InBounds t
RunStep-InBounds connected h = ground arith
RunStep-InBounds lost h = h
RunStep-InBounds (elapsed {b}) h = ground arith
RunStep-InBounds shut_trying h = tt
RunStep-InBounds shut_waiting h = tt

-- In every state that `Run` comes to, the wait before the next attempt is from 1 to 60 seconds.
pub Runs-InBounds : {s : RunState} → Runs s → InBounds s
Runs-InBounds begun = ground arith
Runs-InBounds (then_step r s) = RunStep-InBounds s (Runs-InBounds r)
