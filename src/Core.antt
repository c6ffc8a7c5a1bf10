-- ===== src/Core.antt =====
-- The shared core of the program (core/src): its errors and data, the search, the ingestion and the
-- index jobs.
pub mod Errors
pub mod Metadata
pub mod Ids
pub mod Resource
pub mod Store
pub mod Chunking
pub mod Dates
pub mod Citation
pub mod Search
pub mod Ingestion
pub mod Jobs
pub mod Progress
