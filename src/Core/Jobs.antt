-- ===== src/Core/Jobs.antt =====
-- Index jobs: the data of core/src/types.rs and the transitions of core/src/ingestion.rs.
-- The clock (`now_rfc3339`) and the id generator (`new_ulid`) are arguments.
use localdb.Prelude.{ℕ, Option, none, some, Bool, true, false, Text, unwrap_or}
use localdb.Core.Errors.{Error, code, raw_message, display}

pub data IndexJobScope : Type 0 where
  whole_store : IndexJobScope
  source : Text → IndexJobScope
  document : Text → IndexJobScope

pub data IndexJobState : Type 0 where
  pending running done failed : IndexJobState

pub record IndexJobStats : Type 0 where
  pub docs_seen : ℕ
  pub docs_indexed : ℕ
  pub docs_skipped : ℕ
  pub docs_deleted : ℕ
  pub docs_prunable : ℕ
  pub docs_metadata_updated : ℕ
  pub feed_entries_liveness_checked : ℕ
  pub docs_recheck_deferred : ℕ
  pub chunks_written : ℕ
  pub unsupported_format_count : ℕ
  pub error_count : ℕ
  pub sources_count : ℕ

-- `IndexJobStats::default()`.
abbrev pub no_stats : IndexJobStats
no_stats = record {
  docs_seen = 0;
  docs_indexed = 0;
  docs_skipped = 0;
  docs_deleted = 0;
  docs_prunable = 0;
  docs_metadata_updated = 0;
  feed_entries_liveness_checked = 0;
  docs_recheck_deferred = 0;
  chunks_written = 0;
  unsupported_format_count = 0;
  error_count = 0;
  sources_count = 0;
}

pub record IndexJob : Type 0 where
  pub id : Text
  pub store_id : Text
  pub scope : IndexJobScope
  pub state : IndexJobState
  pub stats : IndexJobStats
  pub error : Option Text
  pub error_code : Option Text
  pub created_at : Text
  pub started_at : Option Text
  pub completed_at : Option Text

-- `matches!(state, IndexJobState::Done | IndexJobState::Failed)`.
abbrev pub is_terminal : IndexJobState → Bool
is_terminal pending = false
is_terminal running = false
is_terminal done = true
is_terminal failed = true

abbrev pub is_failed : IndexJobState → Bool
is_failed failed = true
is_failed s = false

unfoldable pub create_index_job : Text → Text → IndexJobScope → Text → IndexJob
create_index_job ulid store_id scope now = record {
  id = ulid;
  store_id = store_id;
  scope = scope;
  state = pending;
  stats = no_stats;
  error = none;
  error_code = none;
  created_at = now;
  started_at = none;
  completed_at = none;
}

unfoldable pub start_index_job : IndexJob → Text → IndexJob
start_index_job job now = record job { state = running; started_at = some now }

unfoldable pub complete_index_job : IndexJob → IndexJobStats → Text → IndexJob
complete_index_job job stats now = record job {
  state = done;
  stats = stats;
  completed_at = some now;
}

unfoldable pub fail_index_job : IndexJob → Text → Text → IndexJob
fail_index_job job message now = record job {
  state = failed;
  error = some message;
  error_code = none;
  completed_at = some now;
}

unfoldable pub fail_index_job_with_error : IndexJob → Error → Text → IndexJob
fail_index_job_with_error job e now = record job {
  state = failed;
  error = some (unwrap_or (raw_message e) (display e));
  error_code = some (code e);
  completed_at = some now;
}
