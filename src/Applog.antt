-- ===== src/Applog.antt =====
-- internal/applog: the portable log archive and the queue in front of it.
pub mod Records
pub mod Async
pub mod Archive
