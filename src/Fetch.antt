-- ===== src/Fetch.antt =====
-- The guarded HTTP client (fetch/src).
pub mod Destination
pub mod Http
