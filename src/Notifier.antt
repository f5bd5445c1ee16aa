-- ===== src/Notifier.antt =====
-- internal/notifier: the channels of notifications.
pub mod Channels
pub mod Queue
mod Tests
