-- ===== src/Host.antt =====
-- The machine under the agent. A program's calls of `os`, `os/exec`, `time` and `filepath` are
-- values; a host answers each from the calls made before it, which covers every host, however
-- its files, services and firewall change. `M` carries the host and the calls made so far.
mod Core
pub mod Log
pub mod Time
unfoldable pub use Core.*
