-- ===== src/Server.antt =====
-- The daemon (server/src).
pub mod JobQueue
pub mod Scheduler
