-- ===== src/Store.antt =====
-- internal/store: the tables that the other parts share.
pub mod Time
pub mod Watches
pub mod Containers
pub mod Schedules
pub mod Candidates
mod Tests
