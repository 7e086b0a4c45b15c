-- ===== src/Host/Time.antt =====
-- The clock of the process.
use vmkit_agent.Base.{ℕ, ◌+◌, ◌*◌, ◌≤◌, [], ◌∷◌, ◌++◌}
use vmkit_agent.Host.Core.{sleep, clock, Host, Trace}

-- The nanoseconds that the program slept for in these calls
abbrev pub slept : Trace → ℕ
slept [] = 0
slept (sleep n ∷ w) = n * 1000000 + slept w
slept (c ∷ w) = slept w

-- The clock never goes back, and a sleep takes at least its time.
pub record IsClock (host : Host) : Type 0 where
  pub advances : (cs w : Trace) → (host clock w).number + slept cs ≤ (host clock (cs ++ w)).number
