-- ===== src/Core/Ingestion/Run.antt =====
-- One run over a source: `run_source_ingestion` of core/src/ingestion.rs. The
-- ingestor belongs to another crate: it is a function that answers the calls of the callback that
-- it makes, in order, and its own result. Logging is left out.
pub mod Accounting
use localdb.Prelude.{
  ℕ, ◌+◌, Option, none, some, List, [], ◌∷◌, ◌++◌, Bool, true, false, not, ◌&&◌, ◌||◌, Text,
  text_eq, contains, codes, if◌then◌else◌, option_eq, keep,
}
use localdb.Core.Errors.{Error, internal, Result, ok, err}
use localdb.Core.Progress.{
  FetchMetadata, ProgressEvent, source_started, source_finished, IngestionResult,
}
use localdb.Core.Resource.{Resource, SourceSpec, source_location, is_feed}
use localdb.Core.Ingestion.Services.{Services}
use localdb.Core.Ingestion.Index.{
  DocumentIndex, DocumentRecord, DeletionPolicy, retain, prune, get, uris,
}
use localdb.Core.Ingestion.Callback.{Context, PipelineCallback, SkipReason, emit, tally, no_result}
use localdb.Core.Ingestion.Callback.Documents.{
  on_resource, on_resource_fallback, on_discovered, on_gone, on_skipped,
}
use localdb.Core.Ingestion.Callback.Gate.{
  Claim, no_validators, feed_interval, lookup_fetch_metadata, on_validators_refreshed,
  on_metadata_refreshed, recheck_is_due,
}
use localdb.Core.Ingestion.Callback.Due.{due_entries_for_source}
use localdb.Core.Ingestion.Liveness.{feed_inputs_digest}
use localdb.Core.Ingestion.Sweep.{Enumeration, remove_documents}

-- `IngestResult`; its counters serve a debug assertion alone.
pub record IngestResult : Type 0 where
  pub enumeration : Enumeration
  pub document_validators : Option FetchMetadata

pub record IngestSource : Type 0 where
  pub source_id : Text
  pub store_id : Text
  pub config : Text
  pub policy_version : Text
  pub document_validators : FetchMetadata

-- A call of the callback by the ingestor.
pub data Call : Type 0 where
  resource fallback : Resource → Call
  discovered_call : ℕ → Call
  skipped_call : Text → SkipReason → Call
  gone_call : Text → Call
  lookup_call : Text → Call
  validators_call : Text → FetchMetadata → Call
  metadata_call recheck_call : Text → Claim → Call
  due_call : Call

abbrev pub Ingestor : Type 0
Ingestor = IngestSource → List Call × Result Error IngestResult

-- `SourceIngestionDeps`, less the services.
pub record SourceIngestionDeps : Type 0 where
  pub doc_index : DocumentIndex
  pub progress : Option (List ProgressEvent)
  pub deletion : DeletionPolicy
  pub document_validators : FetchMetadata
  pub stored_inputs_digest : Option Text

-- What the caller sees of a run: the index that it lent, the events and the world.
pub record RunEnd (W : Type 0) : Type 0 where
  pub doc_index : DocumentIndex
  pub progress : Option (List ProgressEvent)
  pub world : W

-- The validators that the ingestor may send: none where the inputs of the feed have changed.
unfoldable pub validators_to_send : Bool → Option Text → Option Text → FetchMetadata → FetchMetadata
unfolding text_eq
validators_to_send true digest stored validators = no_validators
validators_to_send false none stored validators = validators
validators_to_send false (some current) stored validators =
    if option_eq text_eq stored (some current) then validators else no_validators

module _ {W : Type 0} (s : Services W) (c : Context) where
  perform_call : Call → PipelineCallback W → PipelineCallback W
  perform_call (resource r) cb = on_resource s c r cb
  perform_call (fallback r) cb = on_resource_fallback s c r cb
  perform_call (discovered_call total) cb = on_discovered s c total cb
  perform_call (skipped_call uri reason) cb = on_skipped s c uri reason cb
  perform_call (gone_call uri) cb = on_gone s c uri cb
  perform_call (lookup_call uri) cb = cb
  perform_call (validators_call uri meta) cb = (on_validators_refreshed s c uri meta cb).0
  perform_call (metadata_call uri claim) cb = (on_metadata_refreshed s c uri claim cb).0
  perform_call (recheck_call uri claim) cb = (recheck_is_due s c uri claim cb).0
  perform_call due_call cb = (due_entries_for_source s c cb).0

  unfoldable pub perform_calls : List Call → PipelineCallback W → PipelineCallback W
  unfolding perform_call
  perform_calls [] cb = cb
  perform_calls (call ∷ calls) cb = perform_calls calls (perform_call call cb)

  finish_run :
      PipelineCallback W × Result Error (Unit {0})
      → PipelineCallback W × Result Error IngestionResult
  finish_run (cb, err e) = (cb, err e)
  finish_run (cb, ok done) = (emit (source_finished cb.result) cb, ok cb.result)

  after_ingest :
      DeletionPolicy
      → Result Error IngestResult
      → PipelineCallback W
      → PipelineCallback W × Result Error IngestionResult
  unfolding remove_documents finish_run feed_inputs_digest
  after_ingest deletion (err e) cb = (cb, err e)
  after_ingest deletion (ok answer) cb = finish_run (
      remove_documents s c deletion answer.enumeration (
        tally
          (λ r. record r {
            document_validators = answer.document_validators;
            document_inputs_digest = feed_inputs_digest s c;
          })
          cb))

  begin_run : SourceIngestionDeps → W → PipelineCallback W
  begin_run deps w = emit (source_started c.source.id (source_location c.source.spec)) (record {
    doc_index = deps.doc_index;
    result = no_result;
    seen = [];
    gone = [];
    discovered_total = 0;
    next_index = 0;
    skip_error_count = 0;
    progress = deps.progress;
    world = w;
  })

  run_with :
      SourceIngestionDeps
      → List Call × Result Error IngestResult
      → W
      → PipelineCallback W × Result Error IngestionResult
  unfolding after_ingest perform_calls begin_run
  run_with deps (calls, answer) w =
      after_ingest deps.deletion answer (perform_calls calls (begin_run deps w))

  ingest_source : SourceIngestionDeps → Text → IngestSource
  unfolding validators_to_send feed_inputs_digest
  ingest_source deps config = record {
    source_id = c.source.id;
    store_id = c.source.store_id;
    config = config;
    policy_version = c.config.policy_version;
    document_validators =
        validators_to_send c.refetch (feed_inputs_digest s c) deps.stored_inputs_digest
          deps.document_validators;
  }

  -- A specification that does not serialize ends the run before anything else is done.
  unfoldable pub run_source_ingestion :
      Ingestor → SourceIngestionDeps → W → RunEnd W × Result Error IngestionResult
  unfolding run_with ingest_source
  run_source_ingestion ingestor deps w = elim (s.spec_to_value c.source.spec) [
    | err e ↦ (
      record { doc_index = deps.doc_index; progress = deps.progress; world = w },
      err (
          internal (codes "failed to serialize source spec: " ++ e)
            (codes "source_spec_serialize")),
    )
    | ok config ↦
        let (cb, answer) = run_with deps (ingestor (ingest_source deps config)) w in
        (record { doc_index = cb.doc_index; progress = cb.progress; world = cb.world }, answer)
  ]
