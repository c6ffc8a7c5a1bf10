-- ===== src/Core/Progress.antt =====
-- What an ingestion run reports: `IngestionResult` of core/src/ingestion.rs and the progress
-- events of core/src/progress.rs.
use localdb.Prelude.{ℕ, Option, Text}

-- `FetchMetadata` of core/src/ingestion/deps.rs: the validators of a conditional request.
pub record FetchMetadata : Type 0 where
  pub etag : Option Text
  pub last_modified : Option Text

pub record IngestionResult : Type 0 where
  pub docs_seen : ℕ
  pub docs_indexed : ℕ
  pub docs_skipped : ℕ
  pub docs_deleted : ℕ
  pub chunks_written : ℕ
  pub unsupported_format_count : ℕ
  pub error_count : ℕ
  pub docs_prunable : ℕ
  pub docs_metadata_updated : ℕ
  pub docs_recheck_deferred : ℕ
  pub feed_entries_liveness_checked : ℕ
  pub document_validators : Option FetchMetadata
  pub document_inputs_digest : Option Text

pub data DocOutcome : Type 0 where
  indexed : ℕ → DocOutcome
  skipped unsupported errored metadata_updated : DocOutcome

pub data ProgressEvent : Type 0 where
  source_started : Text → Text → ProgressEvent
  discovered : ℕ → ProgressEvent
  document_started : Text → ℕ → ℕ → ProgressEvent
  document_finished : Text → DocOutcome → ProgressEvent
  source_finished : IngestionResult → ProgressEvent
