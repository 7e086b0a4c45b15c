-- ===== src/Harden.antt =====
-- internal/harden: the hardening of a VM, its steps and its rollback.
pub mod Config
pub mod System
pub mod Ssh
pub mod Firewall
pub mod Rollback
pub mod Run
pub mod Steps
pub mod Order
pub mod Tested
pub mod Report
pub mod Keys
pub mod Refusal
