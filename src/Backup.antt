-- ===== src/Backup.antt =====
-- internal/backup: an instance's database and files are saved, restored and checked.
pub mod Tools
pub mod Restore
pub mod Verify
pub mod Save
