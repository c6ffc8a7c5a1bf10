-- ===== src/Core/Ingestion/Liveness.antt =====
-- The liveness sweep of a feed: core/src/ingestion/liveness.rs. The state of the run is the state
-- of its callback, of which the sweep uses the index, the result and the world.
pub mod Probes
use localdb.Prelude.{
  ℕ, ◌+◌, ◌^◌, ◌-◌, min, Option, none, some, List, [], ◌∷◌, Bool, not, Text, contains, remove,
  length, keep, take, if◌then◌else◌, or_else, ltb,
}
use localdb.Core.Errors.{Error, Result, ok, err}
use localdb.Core.Progress.{FetchMetadata}
use localdb.Core.Ids.{compute_feed_inputs_digest}
use localdb.Core.Resource.{SourceSpec, path, url_spec, feed_spec}
use localdb.Core.Store.{StaleFeedResource}
use localdb.Core.Ingestion.Services.{Services}
use localdb.Core.Ingestion.Index.{FetchResult, downloaded, not_modified, gone, blocked}
use localdb.Core.Ingestion.Recheck.{recheck_floor_start_rfc3339}
use localdb.Core.Ingestion.Callback.{Context, PipelineCallback, tally}
use localdb.Core.Ingestion.Callback.Due.{feed_liveness_batch_limit}

-- `FEED_LIVENESS_OVERFETCH_CAP`.
abbrev pub feed_liveness_overfetch_cap : ℕ
feed_liveness_overfetch_cap = 500

-- `25usize.saturating_add(seen.len()).min(500)`.
abbrev pub query_limit : ℕ → ℕ
query_limit seen =
    min (min (feed_liveness_batch_limit + seen) (2 ^ 64 - 1)) feed_liveness_overfetch_cap

module _ {W : Type 0} (s : Services W) (c : Context) where
  unfoldable pub feed_inputs_digest : Option Text
  unfolding compute_feed_inputs_digest
  feed_inputs_digest = elim c.source.spec [
    | path root include exclude ↦ none
    | url_spec link interval ↦ none
    | feed_spec link entries full interval ↦
        some (compute_feed_inputs_digest s.hashes c.config.policy_version full entries)
  ]

  -- The write that ends every probe but that of a confirmed 404 or 410; its failure is passed over.
  touch_liveness :
      StaleFeedResource
      → FetchMetadata
      → PipelineCallback W
      → PipelineCallback W × Result Error (Unit {0})
  touch_liveness candidate refreshed cb =
      let (w, answer) =
        s.touch_resource_liveness c.source.store_id candidate.resource_id refreshed.etag
          refreshed.last_modified cb.world in
      (record cb { world = w }, ok tt)

  -- A store that took out rows counts as a deletion; a failure ends the run.
  unfoldable pub count_deleted :
      Result Error ℕ → PipelineCallback W → PipelineCallback W × Result Error (Unit {0})
  count_deleted (err e) cb = (cb, err e)
  count_deleted (ok n) cb = (
    if ltb 0 n then tally (λ r. record r { docs_deleted = r.docs_deleted + 1 }) cb else cb,
    ok tt,
  )

  -- The removal of one document from the index and from the store.
  unfoldable pub delete_document :
      Text → Text → PipelineCallback W → PipelineCallback W × Result Error (Unit {0})
  unfolding count_deleted
  delete_document uri resource_id cb =
      let (w, answer) = s.delete_by_resource resource_id cb.world in
      count_deleted answer (record cb { doc_index = remove uri cb.doc_index; world = w })

  probed :
      StaleFeedResource
      → FetchMetadata
      → Result Error FetchResult
      → PipelineCallback W
      → PipelineCallback W × Result Error (Unit {0})
  unfolding touch_liveness delete_document
  probed candidate stored (err e) cb = touch_liveness candidate stored cb
  probed candidate stored (ok gone) cb = delete_document candidate.uri candidate.resource_id cb
  probed candidate stored (ok (not_modified etag last_modified)) cb =
      touch_liveness candidate
        (record {
          etag = or_else etag stored.etag;
          last_modified = or_else last_modified stored.last_modified;
        })
        cb
  probed candidate stored (ok (downloaded bytes content_type etag last_modified final_url)) cb =
      touch_liveness candidate stored cb
  probed candidate stored (ok blocked) cb = touch_liveness candidate stored cb

  unfoldable pub probe_liveness_candidate :
      StaleFeedResource → PipelineCallback W → PipelineCallback W × Result Error (Unit {0})
  unfolding probed
  probe_liveness_candidate candidate cb =
      let stored : FetchMetadata = record {
        etag = candidate.external_etag;
        last_modified = candidate.external_last_modified;
      } in
      let (w, answer) = s.fetch candidate.uri stored cb.world in
      probed candidate stored answer (
        tally
          (λ r. record r { feed_entries_liveness_checked = r.feed_entries_liveness_checked + 1 })
          (record cb { world = w }))

  -- The loop, which ends at the first error.
  unfoldable pub probe_all :
      List StaleFeedResource → PipelineCallback W → PipelineCallback W × Result Error (Unit {0})
  unfolding probe_liveness_candidate
  probe_all [] cb = (cb, ok tt)
  probe_all (candidate ∷ rest) cb =
      let (cb', answer) = probe_liveness_candidate candidate cb in
      let ended = probe_all rest cb' in elim answer [ err e ↦ (cb', err e) | ok done ↦ ended ]

  -- The candidates that this run did not see, at most 25.
  unfoldable pub unseen : List Text → List StaleFeedResource → List StaleFeedResource
  unfolding contains
  unseen seen candidates =
      take feed_liveness_batch_limit
        (keep (λ (r : StaleFeedResource). not (contains r.uri seen)) candidates)

  sweep_listed :
      Result Error (List StaleFeedResource)
      → PipelineCallback W
      → PipelineCallback W × Result Error (Unit {0})
  unfolding probe_all unseen
  sweep_listed (err e) cb = (cb, err e)
  sweep_listed (ok listed) cb = probe_all (unseen cb.seen listed) cb

  unfoldable pub run_feed_liveness_sweep :
      Option ℕ → PipelineCallback W → PipelineCallback W × Result Error (Unit {0})
  unfolding sweep_listed recheck_floor_start_rfc3339
  run_feed_liveness_sweep interval cb =
      let (w, now) = s.utc_now cb.world in
      let (w', listed) =
        s.list_stale_feed_resources c.source.store_id c.source.id
          (recheck_floor_start_rfc3339 s.to_rfc3339 now interval) (query_limit (length cb.seen))
          w in
      sweep_listed listed (record cb { world = w' })
