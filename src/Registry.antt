-- ===== src/Registry.antt =====
-- internal/registry: versions.
pub mod Semver
pub mod Ref
mod Tests
