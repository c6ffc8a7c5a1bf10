-- ===== src/Core/Ingestion/Callback/Gate.antt =====
-- The conditional requests of a run and the recheck gate: `lookup_fetch_metadata`,
-- `on_validators_refreshed`, `on_metadata_refreshed` and `recheck_is_due` of core/src/ingestion/pipeline/callback.rs.
use localdb.Prelude.{
  ℕ, Option, none, some, ◌++◌, Bool, true, not, ◌&&◌, Text, text_eq, text_lt, codes, if◌then◌else◌,
  option_eq, or_else, and_then, is_none,
}
use localdb.Core.Errors.{Error, Result, ok, err, display}
use localdb.Core.Progress.{FetchMetadata}
use localdb.Core.Metadata.{Metadata, MetadataEnrichment, dublin_core, set_dublin_core, apply_to}
use localdb.Core.Ids.{compute_metadata_hash}
use localdb.Core.Resource.{SourceSpec, path, url_spec, feed_spec}
use localdb.Core.Store.{ResourceRecord}
use localdb.Core.Ingestion.Services.{Services}
use localdb.Core.Ingestion.Index.{DocumentRecord, get, upsert}
use localdb.Core.Ingestion.Recheck.{recheck_floor_start_rfc3339}
use localdb.Core.Ingestion.Callback.{Context, PipelineCallback}

pub data MetadataWriteOutcome : Type 0 where
  unchanged_row written_row : MetadataWriteOutcome
  failed_row : Text → MetadataWriteOutcome

unfoldable pub merge : MetadataWriteOutcome → MetadataWriteOutcome → MetadataWriteOutcome
merge (failed_row message) o = failed_row message
merge unchanged_row (failed_row message) = failed_row message
merge written_row (failed_row message) = failed_row message
merge written_row unchanged_row = written_row
merge written_row written_row = written_row
merge unchanged_row written_row = written_row
merge unchanged_row unchanged_row = unchanged_row

abbrev validators_label : Text
validators_label = codes "conditional-GET validators"

abbrev connector_metadata_label : Text
connector_metadata_label = codes "source-supplied metadata"

abbrev pub recheck_claim_label : Text
recheck_claim_label = codes "the recheck gate's claim comparison"

pub record MergedMetadata : Type 0 where
  pub metadata : Metadata
  pub date_original : Option Text
  pub date_parsed : Option Text
  pub metadata_hash : Text

-- What a connector says of a document now: its enrichment, external id and modification time.
pub record Claim : Type 0 where
  pub enrichment : MetadataEnrichment
  pub external_id : Option Text
  pub modified_at : Option Text

-- `FetchMetadata::default()`.
abbrev pub no_validators : FetchMetadata
no_validators = record { etag = none; last_modified = none }

-- The interval of a feed, and none for another source.
abbrev pub feed_interval : SourceSpec → Option ℕ
feed_interval (path root include exclude) = none
feed_interval (url_spec link interval) = none
feed_interval (feed_spec link entries full interval) = interval

module _ {W : Type 0} (s : Services W) (c : Context) where
  unfoldable pub lookup_fetch_metadata : Text → PipelineCallback W → FetchMetadata
  unfolding text_eq
  lookup_fetch_metadata uri cb = elim (get uri cb.doc_index) [
    | none ↦ no_validators
    | some existing ↦
        if not (text_eq existing.policy_version c.config.policy_version)
        then no_validators
        else record {
          etag = existing.external_etag;
          last_modified = existing.external_last_modified;
        }
  ]

  -- The row, or the outcome that the caller returns.
  unfoldable pub read_outcome :
      Text
      → Text
      → Result Error (Option ResourceRecord)
      → Result MetadataWriteOutcome ResourceRecord
  unfolding display
  read_outcome uri what (ok none) = err unchanged_row
  read_outcome uri what (ok (some row)) = ok row
  read_outcome uri what (err e) = err (
      failed_row (
        codes "error reading resource '"
        ++ uri
        ++ codes "' to refresh "
        ++ what
        ++ codes ": "
        ++ display e))

  unfoldable pub read_persisted_record :
      Text → Text → Text → W → W × Result MetadataWriteOutcome ResourceRecord
  unfolding read_outcome
  read_persisted_record uri resource_id what w =
      let (w', answer) = s.get_resource_record c.config.store_id resource_id w in
      (w', read_outcome uri what answer)

  unfoldable pub merged_onto : DocumentRecord → Claim → ResourceRecord → MergedMetadata
  unfolding apply_to compute_metadata_hash
  merged_onto existing claim persisted =
      let metadata =
        set_dublin_core (apply_to claim.enrichment (dublin_core persisted.metadata))
          persisted.metadata in
      record {
        metadata = metadata;
        date_original = (dublin_core metadata).date;
        date_parsed = and_then (dublin_core metadata).date s.parse_partial_iso8601;
        metadata_hash =
            compute_metadata_hash s.hashes metadata claim.external_id existing.external_etag
              claim.modified_at;
      }

  unfoldable pub merged_outcome :
      DocumentRecord
      → Claim
      → Result MetadataWriteOutcome ResourceRecord
      → Result MetadataWriteOutcome MergedMetadata
  unfolding merged_onto
  merged_outcome existing claim (err outcome) = err outcome
  merged_outcome existing claim (ok persisted) = ok (merged_onto existing claim persisted)

  unfoldable pub merge_metadata_claim :
      DocumentRecord → Claim → Text → W → W × Result MetadataWriteOutcome MergedMetadata
  unfolding merged_outcome read_persisted_record
  merge_metadata_claim existing claim what w =
      let (w', row) = read_persisted_record existing.uri existing.resource_id what w in
      (w', merged_outcome existing claim row)

  -- A failed write leaves the index as it was.
  unfoldable pub persisted_outcome :
      Text
      → DocumentRecord
      → Text
      → Result Error (Unit {0})
      → PipelineCallback W
      → PipelineCallback W × MetadataWriteOutcome
  unfolding display
  persisted_outcome uri updated what (err e) cb = (
    cb,
    failed_row (
        codes "error persisting refreshed "
        ++ what
        ++ codes " for '"
        ++ uri
        ++ codes "': "
        ++ display e),
  )
  persisted_outcome uri updated what (ok done) cb =
      (record cb { doc_index = upsert updated cb.doc_index }, written_row)

  unfoldable pub persist_metadata_write :
      Text
      → Text
      → ResourceRecord
      → DocumentRecord
      → Text
      → PipelineCallback W
      → PipelineCallback W × MetadataWriteOutcome
  unfolding persisted_outcome
  persist_metadata_write uri resource_id row updated what cb =
      let (w, answer) = s.update_resource_metadata c.config.store_id resource_id row cb.world in
      persisted_outcome uri updated what answer (record cb { world = w })

  unfoldable pub rotate_row :
      Text
      → Option Text
      → Option Text
      → DocumentRecord
      → Result MetadataWriteOutcome ResourceRecord
      → PipelineCallback W
      → PipelineCallback W × MetadataWriteOutcome
  unfolding persist_metadata_write compute_metadata_hash
  rotate_row uri etag last_modified existing (err outcome) cb = (cb, outcome)
  rotate_row uri etag last_modified existing (ok persisted) cb =
      persist_metadata_write uri existing.resource_id
        (record persisted { external_etag = etag; external_last_modified = last_modified })
        (record existing {
          metadata_hash =
              compute_metadata_hash s.hashes persisted.metadata persisted.external_id etag
                persisted.modified_at;
          external_etag = etag;
          external_last_modified = last_modified;
        })
        validators_label cb

  unfoldable pub rotate_validators :
      Text
      → FetchMetadata
      → DocumentRecord
      → PipelineCallback W
      → PipelineCallback W × MetadataWriteOutcome
  unfolding rotate_row read_persisted_record text_eq
  rotate_validators uri meta existing cb =
      let etag = or_else meta.etag existing.external_etag in
      let last_modified = or_else meta.last_modified existing.external_last_modified in
      let (w, row) = read_persisted_record uri existing.resource_id validators_label cb.world in
      let rotated = rotate_row uri etag last_modified existing row (record cb { world = w }) in
      if option_eq text_eq etag existing.external_etag
        && option_eq text_eq last_modified existing.external_last_modified
      then (cb, unchanged_row)
      else rotated

  unfoldable pub on_validators_refreshed :
      Text → FetchMetadata → PipelineCallback W → PipelineCallback W × MetadataWriteOutcome
  unfolding rotate_validators
  on_validators_refreshed uri meta cb =
      if is_none meta.etag && is_none meta.last_modified
      then (cb, unchanged_row)
      else elim (get uri cb.doc_index) [
        | none ↦ (cb, unchanged_row)
        | some existing ↦ rotate_validators uri meta existing cb
      ]

  unfoldable pub write_merged :
      Text
      → Claim
      → DocumentRecord
      → Result MetadataWriteOutcome MergedMetadata
      → PipelineCallback W
      → PipelineCallback W × MetadataWriteOutcome
  unfolding persist_metadata_write text_eq
  write_merged uri claim existing (err outcome) cb = (cb, outcome)
  write_merged uri claim existing (ok merged) cb =
      let row : ResourceRecord = record {
        metadata = merged.metadata;
        external_id = claim.external_id;
        external_etag = existing.external_etag;
        external_last_modified = existing.external_last_modified;
        modified_at = claim.modified_at;
        date_original = merged.date_original;
        date_parsed = merged.date_parsed;
      } in
      let persisted =
        persist_metadata_write uri existing.resource_id row
          (record existing { metadata_hash = merged.metadata_hash }) connector_metadata_label cb in
      if text_eq merged.metadata_hash existing.metadata_hash then (cb, unchanged_row) else persisted

  unfoldable pub on_metadata_refreshed :
      Text → Claim → PipelineCallback W → PipelineCallback W × MetadataWriteOutcome
  unfolding merge_metadata_claim write_merged
  on_metadata_refreshed uri claim cb = elim (get uri cb.doc_index) [
    | none ↦ (cb, unchanged_row)
    | some existing ↦
        let (w, merged) = merge_metadata_claim existing claim connector_metadata_label cb.world in
        write_merged uri claim existing merged (record cb { world = w })
  ]

  -- The third test: the claim against the stored hash.
  unfoldable pub claim_differs : DocumentRecord → Result MetadataWriteOutcome MergedMetadata → Bool
  unfolding text_eq
  claim_differs existing (err outcome) = true
  claim_differs existing (ok merged) = not (text_eq merged.metadata_hash existing.metadata_hash)

  -- The second test and the third, for a document that was checked at a time.
  unfoldable pub due_since : DocumentRecord → Claim → Text → W → W × Bool
  unfolding claim_differs merge_metadata_claim recheck_floor_start_rfc3339 text_lt
  due_since existing claim last_checked_at w =
      let (w', now) = s.utc_now w in
      let (w'', merged) = merge_metadata_claim existing claim recheck_claim_label w' in
      if text_lt last_checked_at
        (recheck_floor_start_rfc3339 s.to_rfc3339 now (feed_interval c.source.spec))
      then (w', true)
      else (w'', claim_differs existing merged)

  unfoldable pub due_known : DocumentRecord → Claim → W → W × Bool
  unfolding due_since text_eq
  due_known existing claim w =
      if not (text_eq existing.policy_version c.config.policy_version)
      then (w, true)
      else if c.refetch
      then (w, true)
      else elim existing.last_checked_at [
        | none ↦ (w, true)
        | some last_checked_at ↦ due_since existing claim last_checked_at w
      ]

  unfoldable pub recheck_is_due : Text → Claim → PipelineCallback W → PipelineCallback W × Bool
  unfolding due_known
  recheck_is_due uri claim cb = elim (get uri cb.doc_index) [
    | none ↦ (cb, true)
    | some existing ↦
        let (w, due) = due_known existing claim cb.world in (record cb { world = w }, due)
  ]
