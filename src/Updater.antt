-- ===== src/Updater.antt =====
-- internal/updater: what may mutate a container, and when.
pub mod Guard
pub mod SelfUpdate
pub mod Json
pub mod Volumes
pub mod Validate
pub mod Engine
pub mod Recreate
pub mod Update
pub mod Rollback
pub mod Fixture
