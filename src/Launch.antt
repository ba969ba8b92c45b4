-- ===== src/Launch.antt =====
-- What must hold before the shops open: packages/contracts/src/launch-staging.ts. A parent of the
-- modules of its parts.
mod Tests
pub mod Staging
pub mod Backup
pub mod Manifest
