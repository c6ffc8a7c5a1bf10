-- ===== src/Core/Ingestion.antt =====
-- The ingestion pipeline of core/src/ingestion: what one run over a source does with the documents
-- that its ingestor reports, and which documents it removes.
pub mod Services
pub mod Index
pub mod Pipeline
pub mod Recheck
pub mod Callback
pub mod Liveness
pub mod Sweep
pub mod Run
mod Tests
