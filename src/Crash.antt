-- ===== src/Crash.antt =====
-- internal/crashloop: crashes after an update.
pub mod Monitor
pub mod Task
mod Tests
