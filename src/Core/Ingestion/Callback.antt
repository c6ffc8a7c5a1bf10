-- ===== src/Core/Ingestion/Callback.antt =====
-- `PipelineCallback` of core/src/ingestion/pipeline/callback.rs: what a run does with each document
-- that its ingestor reports. `Context` holds what a run never changes. The sets of URIs are lists,
-- and the sink of progress events is the list of what it was handed. The methods whose result is
-- always `Ok(())` answer the new state alone.
pub mod Documents
pub mod Counters
pub mod Again
pub mod Freshness
pub mod Gate
pub mod Due
use localdb.Prelude.{
  ℕ, suc, ◌+◌, Option, none, some, List, [], ◌∷◌, ◌++◌, Bool, true, false, ◌&&◌, Text, text_eq,
  contains, if◌then◌else◌, option_eq, map_option,
}
use localdb.Core.Errors.{Error, Result, ok, err}
use localdb.Core.Progress.{
  IngestionResult, FetchMetadata, ProgressEvent, discovered, document_started, document_finished,
  DocOutcome, indexed, skipped, unsupported, errored, metadata_updated,
}
use localdb.Core.Resource.{Resource, Source, SourceSpec, path, url_spec, feed_spec}
use localdb.Core.Store.{ResourceRecord}
use localdb.Core.Ingestion.Services.{Services}
use localdb.Core.Ingestion.Index.{DocumentRecord, DocumentIndex, get, upsert}
use localdb.Core.Ingestion.Pipeline.{
  IngestionConfig, IndexOutcome, written, empty, DerivedResourceState, derive_resource_state,
  index_resource,
}

pub record Context : Type 0 where
  pub source : Source
  pub config : IngestionConfig
  pub refetch : Bool

pub record PipelineCallback (W : Type 0) : Type 0 where
  pub doc_index : DocumentIndex
  pub result : IngestionResult
  pub seen : List Text
  pub gone : List Text
  pub discovered_total : ℕ
  pub next_index : ℕ
  pub skip_error_count : ℕ
  pub progress : Option (List ProgressEvent)
  pub world : W

pub data SkipReason : Type 0 where
  unchanged unsupported_format : SkipReason
  other : Text → SkipReason
  error : Text → SkipReason
  metadata_refreshed fresh : SkipReason

-- `IngestionResult::default()`.
abbrev pub no_result : IngestionResult
no_result = record {
  docs_seen = 0;
  docs_indexed = 0;
  docs_skipped = 0;
  docs_deleted = 0;
  chunks_written = 0;
  unsupported_format_count = 0;
  error_count = 0;
  docs_prunable = 0;
  docs_metadata_updated = 0;
  docs_recheck_deferred = 0;
  feed_entries_liveness_checked = 0;
  document_validators = none;
  document_inputs_digest = none;
}

-- `HashSet::insert`.
abbrev pub include : Text → List Text → List Text
include t s = if contains t s then s else t ∷ s

abbrev pub is_network_source : SourceSpec → Bool
is_network_source (path root include exclude) = false
is_network_source (url_spec link interval) = true
is_network_source (feed_spec link entries full interval) = true

module _ {W : Type 0} where
  abbrev pub emit : ProgressEvent → PipelineCallback W → PipelineCallback W
  emit event cb = record cb { progress = map_option (λ events. events ++ event ∷ []) cb.progress }

  unfoldable pub start_document : Text → PipelineCallback W → PipelineCallback W
  start_document uri cb =
      emit (document_started uri cb.next_index cb.discovered_total)
        (record cb { next_index = cb.next_index + 1 })

  -- A document is met: it counts as seen, and its processing starts.
  unfoldable pub meet : Text → PipelineCallback W → PipelineCallback W
  unfolding contains start_document
  meet uri cb = start_document uri (record cb {
    seen = include uri cb.seen;
    result = record cb.result { docs_seen = cb.result.docs_seen + 1 };
  })

  abbrev pub tally : (IngestionResult → IngestionResult) → PipelineCallback W → PipelineCallback W
  tally f cb = record cb { result = f cb.result }

  abbrev pub finish :
      Text
      → DocOutcome
      → (IngestionResult → IngestionResult)
      → PipelineCallback W
      → PipelineCallback W
  finish uri outcome f cb = emit (document_finished uri outcome) (tally f cb)

abbrev pub one_skipped : IngestionResult → IngestionResult
one_skipped r = record r { docs_skipped = r.docs_skipped + 1 }

abbrev pub one_unsupported : IngestionResult → IngestionResult
one_unsupported r = record r { unsupported_format_count = r.unsupported_format_count + 1 }

abbrev pub one_error : IngestionResult → IngestionResult
one_error r = record r { error_count = r.error_count + 1 }

abbrev pub one_metadata_updated : IngestionResult → IngestionResult
one_metadata_updated r = record r { docs_metadata_updated = r.docs_metadata_updated + 1 }

abbrev pub one_deferred : IngestionResult → IngestionResult
one_deferred r = record r {
  docs_skipped = r.docs_skipped + 1;
  docs_recheck_deferred = r.docs_recheck_deferred + 1;
}

abbrev pub one_indexed : ℕ → IngestionResult → IngestionResult
one_indexed chunks r = record r {
  docs_indexed = r.docs_indexed + 1;
  chunks_written = r.chunks_written + chunks;
}
