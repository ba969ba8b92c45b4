-- ===== src/Release.antt =====
-- The gates of a release: scripts/ proves, step by step, that a credential, a deployment or a backup
-- may be relied on.
pub mod Backup
pub mod Credential
pub mod Dormant
pub mod Names
pub mod Restore
pub mod Download
