-- ===== src/Types.antt =====
-- pkg/types/types.go: the records that several operations share.
pub mod Sequence
use vmkit_agent.Base.{String}

-- `Status` of a step: "in_progress", "completed" or "failed". The empty text is `Status`'s
-- zero value in Go and no step keeps it.
pub data Status : Type 0 where
  in_progress completed failed : Status

-- The times and the duration, which nothing reads, are left out.
pub record StepResult : Type 0 where
  pub name : String
  pub status : Status
  pub message : String
