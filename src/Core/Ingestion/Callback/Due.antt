-- ===== src/Core/Ingestion/Callback/Due.antt =====
-- The entries of a feed that are due for a check although the feed itself has not changed:
-- `due_entries_for_source` of core/src/ingestion/pipeline/callback.rs.
use localdb.Prelude.{
  ℕ, Option, none, some, List, [], ◌∷◌, ◌++◌, Bool, true, false, not, ◌||◌, Text, text_eq, text_lt,
  codes, if◌then◌else◌, option_eq, keep, take,
}
use localdb.Core.Errors.{Error, Result, ok, err}
use localdb.Core.Metadata.{
  MetadataEnrichment, DublinCoreMetadata, dublin_core, feed_entry_date_source,
}
use localdb.Core.Resource.{SourceSpec, path, url_spec, feed_spec}
use localdb.Core.Store.{ResourceRecord}
use localdb.Core.Chunking.{starts_with}
use localdb.Core.Ingestion.Services.{Services}
use localdb.Core.Ingestion.Index.{DocumentRecord, DocumentIndex, for_source}
use localdb.Core.Ingestion.Recheck.{recheck_floor_start_rfc3339}
use localdb.Core.Ingestion.Callback.{Context, PipelineCallback}

-- `FEED_LIVENESS_BATCH_LIMIT`.
abbrev pub feed_liveness_batch_limit : ℕ
feed_liveness_batch_limit = 25

pub record DueRecheckEntry : Type 0 where
  pub locator : Text
  pub uri : Text
  pub enrichment : MetadataEnrichment
  pub external_id : Option Text
  pub modified_at : Option Text

-- `is_none_or(|checked| checked < floor)`.
checked_before : Text → Option Text → Bool
unfolding text_lt
checked_before floor none = true
checked_before floor (some checked) = text_lt checked floor

-- The filters on the documents of the source.
unfoldable pub is_due_entry : Text → Text → Text → DocumentRecord → Bool
unfolding text_eq checked_before
is_due_entry feed_url policy_version floor r =
    if starts_with (feed_url ++ codes "#entry:") r.uri
    then false
    else if not (starts_with (codes "http://") r.uri || starts_with (codes "https://") r.uri)
    then false
    else not (text_eq r.policy_version policy_version) || checked_before floor r.last_checked_at

-- The stored fields as a claim, its date only where a feed entry gave it.
stored_claim : DublinCoreMetadata → MetadataEnrichment
unfolding text_eq
stored_claim dc =
    let stamped = option_eq text_eq dc.date_source (some feed_entry_date_source) in
    record {
      title_fallback = dc.title;
      creator = dc.creator;
      date = if stamped then dc.date else none;
      date_source = if stamped then dc.date_source else none;
      provenance_source = dc.source;
    }

module _ {W : Type 0} (s : Services W) (c : Context) where
  unfoldable pub due_candidates : Text → Option ℕ → ℕ → DocumentIndex → List DocumentRecord
  unfolding is_due_entry recheck_floor_start_rfc3339
  due_candidates feed_url interval now index = take feed_liveness_batch_limit (
      s.shuffle (
        keep
          (is_due_entry feed_url c.config.policy_version
            (recheck_floor_start_rfc3339 s.to_rfc3339 now interval))
          (for_source c.source.id index)))

  -- A row that is missing or cannot be read, or a URI that does not parse, is passed over.
  entry_of : DocumentRecord → Result Error (Option ResourceRecord) → List DueRecheckEntry
  unfolding stored_claim
  entry_of r (err e) = []
  entry_of r (ok none) = []
  entry_of r (ok (some row)) = elim (s.parse_uri r.uri) [
    | none ↦ []
    | some uri ↦
        record {
          locator = r.uri;
          uri = uri;
          enrichment = stored_claim (dublin_core row.metadata);
          external_id = row.external_id;
          modified_at = row.modified_at;
        }
        ∷ []
  ]

  unfoldable pub read_entries : List DocumentRecord → W → W × List DueRecheckEntry
  unfolding entry_of
  read_entries [] w = (w, [])
  read_entries (r ∷ rs) w =
      let (w', row) = s.get_resource_record c.config.store_id r.resource_id w in
      let (w'', rest) = read_entries rs w' in (w'', entry_of r row ++ rest)

  unfoldable pub due_for :
      SourceSpec → PipelineCallback W → PipelineCallback W × List DueRecheckEntry
  unfolding due_candidates read_entries
  due_for (path root include exclude) cb = (cb, [])
  due_for (url_spec link interval) cb = (cb, [])
  due_for (feed_spec link entries full interval) cb =
      let (w, now) = s.utc_now cb.world in
      let (w', due) = read_entries (due_candidates link interval now cb.doc_index) w in
      (record cb { world = w' }, due)

  unfoldable pub due_entries_for_source :
      PipelineCallback W → PipelineCallback W × List DueRecheckEntry
  unfolding due_for
  due_entries_for_source cb = due_for c.source.spec cb
