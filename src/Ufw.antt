-- ===== src/Ufw.antt =====
-- internal/openport/allowlist.go: the rules of the firewall, read, compared and written.
pub mod Rules
pub mod Line
pub mod Parse
pub mod Sort
pub mod Delete
pub mod Diff
pub mod Purge
pub mod Left
