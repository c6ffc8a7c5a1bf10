-- ===== src/Core/Ingestion/Callback/Documents.antt =====
-- What a run does with a resource and with a skipped document: `on_resource_impl`, `on_skipped` and
-- the other calls of core/src/ingestion/pipeline/callback.rs that count a document.
use localdb.Prelude.{
  ℕ, ◌+◌, Option, none, some, Bool, true, false, ◌&&◌, Text, text_eq, if◌then◌else◌, option_eq,
}
use localdb.Core.Errors.{Error, Result, ok, err}
use localdb.Core.Progress.{discovered, indexed, skipped, unsupported, errored, metadata_updated}
use localdb.Core.Resource.{Resource}
use localdb.Core.Store.{ResourceRecord}
use localdb.Core.Ingestion.Services.{Services}
use localdb.Core.Ingestion.Index.{DocumentRecord, get, upsert}
use localdb.Core.Ingestion.Pipeline.{
  IndexOutcome, written, empty, DerivedResourceState, derive_resource_state, index_resource,
}
use localdb.Core.Ingestion.Callback.{
  Context, PipelineCallback, SkipReason, unchanged, unsupported_format, other, error,
  metadata_refreshed, fresh, include, is_network_source, emit, meet, tally, finish, one_skipped,
  one_unsupported, one_error, one_metadata_updated, one_deferred, one_indexed,
}

module _ {W : Type 0} (s : Services W) (c : Context) where
  unfoldable pub touched : Text → Result Error (Unit {0}) → PipelineCallback W → PipelineCallback W
  touched uri (err e) cb = cb
  touched uri (ok done) cb = elim (get uri cb.doc_index) [
    | none ↦ cb
    | some existing ↦
        let (w, now) = s.now_rfc3339 cb.world in
        record cb {
          doc_index = upsert (record existing { last_checked_at = some now }) cb.doc_index;
          world = w;
        }
  ]

  unfoldable pub touch_checked : Text → Text → PipelineCallback W → PipelineCallback W
  unfolding touched
  touch_checked uri resource_id cb =
      let (w, answer) = s.touch_resource_checked c.config.store_id resource_id cb.world in
      touched uri answer (record cb { world = w })

  -- The guard that the callers of `touch_checked` share.
  unfoldable pub touch_if : Bool → Text → Text → PipelineCallback W → PipelineCallback W
  unfolding touch_checked
  touch_if from_origin uri resource_id cb =
      let checked = touch_checked uri resource_id cb in
      if is_network_source c.source.spec && from_origin then checked else cb

  -- Neither the content nor the metadata has changed.
  unfoldable pub skip_same : Text → Bool → DocumentRecord → PipelineCallback W → PipelineCallback W
  unfolding touch_if
  skip_same uri from_origin existing cb =
      finish uri skipped (λ r. r)
        (touch_if from_origin uri existing.resource_id (tally one_skipped cb))

  unfoldable pub refreshed_record : DerivedResourceState → Resource → ResourceRecord
  refreshed_record derived resource = record {
    metadata = derived.metadata;
    external_id = resource.external_id;
    external_etag = resource.external_etag;
    external_last_modified = resource.external_last_modified;
    modified_at = derived.modified_at;
    date_original = derived.date_original;
    date_parsed = derived.date_parsed;
  }

  unfoldable pub metadata_written :
      Resource
      → Bool
      → DocumentRecord
      → Result Error (Unit {0})
      → PipelineCallback W
      → PipelineCallback W
  unfolding touch_if derive_resource_state
  metadata_written resource from_origin existing (err e) cb =
      finish resource.uri errored one_error cb
  metadata_written resource from_origin existing (ok done) cb =
      let known : DocumentRecord = record {
        uri = resource.uri;
        resource_id = existing.resource_id;
        source_id = existing.source_id;
        content_hash = existing.content_hash;
        policy_version = existing.policy_version;
        metadata_hash = (derive_resource_state s resource).metadata_hash;
        external_etag = resource.external_etag;
        external_last_modified = resource.external_last_modified;
        last_checked_at = existing.last_checked_at;
      } in
      finish resource.uri metadata_updated (λ r. r)
        (touch_if from_origin resource.uri existing.resource_id
          (tally one_metadata_updated (record cb { doc_index = upsert known cb.doc_index })))

  -- The content is the same and the metadata is not.
  unfoldable pub update_metadata :
      Resource → Bool → DocumentRecord → PipelineCallback W → PipelineCallback W
  unfolding metadata_written refreshed_record derive_resource_state
  update_metadata resource from_origin existing cb =
      let (w, answer) =
        s.update_resource_metadata c.config.store_id existing.resource_id
          (refreshed_record (derive_resource_state s resource) resource) cb.world in
      metadata_written resource from_origin existing answer (record cb { world = w })

  unfoldable pub indexed_record : Resource → Text → DocumentRecord
  indexed_record resource metadata_hash = record {
    uri = resource.uri;
    resource_id = resource.id;
    source_id = resource.source_id;
    content_hash = resource.content_hash;
    policy_version = c.config.policy_version;
    metadata_hash = metadata_hash;
    external_etag = resource.external_etag;
    external_last_modified = resource.external_last_modified;
    last_checked_at = none;
  }

  -- The `match` on what `index_resource` did.
  unfoldable pub settle_outcome :
      Resource → Bool → Result Error IndexOutcome → PipelineCallback W → PipelineCallback W
  unfolding touch_if indexed_record
  settle_outcome resource from_origin (ok empty) cb = finish resource.uri skipped one_skipped cb
  settle_outcome resource from_origin (ok (written chunks metadata_hash)) cb =
      finish resource.uri (indexed chunks) (λ r. r)
        (touch_if from_origin resource.uri resource.id (
          tally (one_indexed chunks) (record cb {
            doc_index = upsert (indexed_record resource metadata_hash) cb.doc_index;
          })))
  settle_outcome resource from_origin (err e) cb = finish resource.uri errored one_error cb

  unfoldable pub index_again :
      Resource → Bool → Option Text → PipelineCallback W → PipelineCallback W
  unfolding settle_outcome index_resource
  index_again resource from_origin replaces cb =
      let (w, outcome) = index_resource s c.config resource c.source replaces cb.world in
      settle_outcome resource from_origin outcome (record cb { world = w })

  -- The tests on a document that the index knows.
  unfoldable pub resource_known :
      Resource → Bool → DocumentRecord → PipelineCallback W → PipelineCallback W
  unfolding text_eq skip_same update_metadata index_again derive_resource_state
  resource_known resource from_origin existing cb =
      if text_eq existing.content_hash resource.content_hash
        && text_eq existing.policy_version c.config.policy_version
      then (if text_eq existing.metadata_hash (derive_resource_state s resource).metadata_hash
            && option_eq text_eq existing.external_last_modified resource.external_last_modified
          then skip_same resource.uri from_origin existing cb
          else update_metadata resource from_origin existing cb)
      else index_again resource from_origin (some existing.resource_id) cb

  unfoldable pub on_resource_met :
      Resource → Bool → Option DocumentRecord → PipelineCallback W → PipelineCallback W
  unfolding resource_known index_again
  on_resource_met resource from_origin none cb = index_again resource from_origin none cb
  on_resource_met resource from_origin (some existing) cb =
      resource_known resource from_origin existing cb

  unfoldable pub on_resource_impl : Resource → Bool → PipelineCallback W → PipelineCallback W
  unfolding meet on_resource_met
  on_resource_impl resource from_origin cb =
      on_resource_met resource from_origin (get resource.uri cb.doc_index) (meet resource.uri cb)

  abbrev pub on_resource : Resource → PipelineCallback W → PipelineCallback W
  on_resource resource cb = on_resource_impl resource true cb

  abbrev pub on_resource_fallback : Resource → PipelineCallback W → PipelineCallback W
  on_resource_fallback resource cb = on_resource_impl resource false cb

  abbrev pub on_discovered : ℕ → PipelineCallback W → PipelineCallback W
  on_discovered total cb = emit (discovered total) (record cb { discovered_total = total })

  abbrev pub on_gone : Text → PipelineCallback W → PipelineCallback W
  on_gone uri cb = record cb { gone = include uri cb.gone }

  unfoldable pub touch_known : Text → PipelineCallback W → PipelineCallback W
  unfolding touch_if
  touch_known uri cb = elim (get uri cb.doc_index) [
    | none ↦ cb
    | some existing ↦ touch_if true uri existing.resource_id cb
  ]

  unfoldable pub skipped_for : Text → SkipReason → PipelineCallback W → PipelineCallback W
  unfolding touch_known
  skipped_for uri unchanged cb =
      finish uri skipped (λ r. r) (touch_known uri (tally one_skipped cb))
  skipped_for uri unsupported_format cb = finish uri unsupported one_unsupported cb
  skipped_for uri (other why) cb = finish uri skipped one_skipped cb
  skipped_for uri metadata_refreshed cb =
      finish uri metadata_updated (λ r. r) (touch_known uri (tally one_metadata_updated cb))
  skipped_for uri fresh cb = finish uri skipped one_deferred cb
  skipped_for uri (error message) cb =
      finish uri errored one_error (record cb { skip_error_count = cb.skip_error_count + 1 })

  unfoldable pub on_skipped : Text → SkipReason → PipelineCallback W → PipelineCallback W
  unfolding meet skipped_for
  on_skipped uri reason cb = skipped_for uri reason (meet uri cb)
