-- ===== src/Core/Ingestion/Liveness/Probes.antt =====
-- What the liveness sweep of a feed may do: it probes a bounded number of documents that the run did
-- not meet, and deletes on the origin's word alone.
use mathlib.Core.Path.{subst}
use localdb.Prelude.{
  ℕ, ◌+◌, ◌≤◌, ◌≡◌, ◌≢◌, refl, sym, inl, inr, Option, List, [], ◌∷◌, not, Text, contains, arith,
  length, keep, length-take, All, All-keep, All-take,
}
use localdb.Core.Errors.{Error, Result, ok, err, Result-cases}
use localdb.Core.Progress.{FetchMetadata}
use localdb.Core.Store.{StaleFeedResource}
use localdb.Core.Ingestion.Services.{Services}
use localdb.Core.Ingestion.Index.{FetchResult, gone, downloaded, not_modified, blocked}
use localdb.Core.Ingestion.Callback.{Context, PipelineCallback}
use localdb.Core.Ingestion.Callback.Due.{feed_liveness_batch_limit}
use localdb.Core.Ingestion.Liveness.{
  touch_liveness, count_deleted, delete_document, probed, probe_liveness_candidate, probe_all,
  unseen, sweep_listed, run_feed_liveness_sweep,
}

module _ {W : Type 0} (s : Services W) (c : Context) where
  deleted :
      (uri id : Text) (cb : PipelineCallback W)
      → (delete_document s c uri id cb).0.world ≡ (s.delete_by_resource id cb.world).0
  unfolding delete_document count_deleted
  deleted uri id cb = ground arith

  delete-keeps :
      (P : W → Type 0) (uri id : Text) (cb : PipelineCallback W)
      → P (s.delete_by_resource id cb.world).0
      → P (delete_document s c uri id cb).0.world
  unfolding delete_document count_deleted
  delete-keeps P uri id cb p = subst P (sym (deleted uri id cb)) p

  probed-checked :
      (candidate : StaleFeedResource) (stored : FetchMetadata) (answer : Result Error FetchResult)
      (cb : PipelineCallback W)
      → (probed s c candidate stored answer cb).0.result.feed_entries_liveness_checked
        ≡ cb.result.feed_entries_liveness_checked
  unfolding probed touch_liveness delete_document count_deleted
  probed-checked candidate stored answer cb = ground arith

  probe-checked :
      (candidate : StaleFeedResource) (cb : PipelineCallback W)
      → (probe_liveness_candidate s c candidate cb).0.result.feed_entries_liveness_checked
        ≡ cb.result.feed_entries_liveness_checked + 1
  unfolding probe_liveness_candidate
  probe-checked candidate cb = probed-checked candidate _ _ _

  probe_all-checked :
      (candidates : List StaleFeedResource) (cb : PipelineCallback W)
      → (probe_all s c candidates cb).0.result.feed_entries_liveness_checked
        ≤ cb.result.feed_entries_liveness_checked + length candidates
  unfolding probe_all
  probe_all-checked [] cb = omega arith
  probe_all-checked (candidate ∷ rest) cb =
      let one = probe_liveness_candidate s c candidate cb in
      ground (arith, probe-checked candidate cb, probe_all-checked rest one.0)

  length-unseen :
      (seen : List Text) (listed : List StaleFeedResource)
      → length (unseen s c seen listed) ≤ feed_liveness_batch_limit
  unfolding unseen
  length-unseen seen listed = omega (
    arith,
    length-take feed_liveness_batch_limit
        (keep (λ (r : StaleFeedResource). not (contains r.uri seen)) listed),
  )

  sweep_listed-checked :
      (listed : Result Error (List StaleFeedResource)) (cb : PipelineCallback W)
      → (sweep_listed s c listed cb).0.result.feed_entries_liveness_checked
        ≤ cb.result.feed_entries_liveness_checked + feed_liveness_batch_limit
  unfolding sweep_listed
  sweep_listed-checked (err e) cb = omega arith
  sweep_listed-checked (ok listed) cb =
      omega (arith, probe_all-checked (unseen s c cb.seen listed) cb, length-unseen cb.seen listed)

  -- One liveness sweep probes at most 25 documents, however many the store lists.
  pub run_feed_liveness_sweep-checked :
      (interval : Option ℕ) (cb : PipelineCallback W)
      → (run_feed_liveness_sweep s c interval cb).0.result.feed_entries_liveness_checked
        ≤ cb.result.feed_entries_liveness_checked + 25
  unfolding run_feed_liveness_sweep
  run_feed_liveness_sweep-checked interval cb = sweep_listed-checked _ _

  -- What the sweep calls of a world in which a document `r` at the URI `u` is, as far as `P` can tell:
  -- no call but its own deletion touches it, the store lists it under its URI, and its origin answers
  -- no 404 or 410.
  pub record Alive (P : W → Type 0) (r u : Text) : Type 0 where
    pub clock : (w : W) → P w → P (s.utc_now w).0
    pub lists : (a b t : Text) (n : ℕ) (w : W) → P w → P (s.list_stale_feed_resources a b t n w).0
    pub fetches : (v : Text) (m : FetchMetadata) (w : W) → P w → P (s.fetch v m w).0
    pub touches :
        (a id : Text) (t m : Option Text) (w : W) → P w → P (s.touch_resource_liveness a id t m w).0
    pub deletes : (id : Text) (w : W) → id ≢ r → P w → P (s.delete_by_resource id w).0
    pub placed :
        (a b t : Text) (n : ℕ) (w : W) (listed : List StaleFeedResource)
        → (s.list_stale_feed_resources a b t n w).1 ≡ ok listed
        → All (λ (x : StaleFeedResource). x.resource_id ≡ r → x.uri ≡ u) listed
    pub answers : (m : FetchMetadata) (w : W) → (s.fetch u m w).1 ≢ ok gone

  module _ (P : W → Type 0) (r u : Text) (a : Alive P r u) where
    probed-keeps :
        (x : StaleFeedResource) (stored : FetchMetadata) (answer : Result Error FetchResult)
        (cb : PipelineCallback W)
        → (answer ≡ ok gone → x.resource_id ≢ r)
        → P cb.world
        → P (probed s c x stored answer cb).0.world
    unfolding probed touch_liveness delete_document count_deleted
    probed-keeps x stored (err e) cb other p = a.touches _ _ _ _ _ p
    probed-keeps x stored (ok gone) cb other p =
        delete-keeps P x.uri x.resource_id cb (a.deletes x.resource_id cb.world (other refl) p)
    probed-keeps x stored (ok (not_modified etag modified)) cb other p = a.touches _ _ _ _ _ p
    probed-keeps x stored (ok (downloaded bytes kind etag modified final)) cb other p =
        a.touches _ _ _ _ _ p
    probed-keeps x stored (ok blocked) cb other p = a.touches _ _ _ _ _ p

    probe-keeps :
        (x : StaleFeedResource) (cb : PipelineCallback W)
        → (x.resource_id ≡ r → x.uri ≡ u)
        → P cb.world
        → P (probe_liveness_candidate s c x cb).0.world
    unfolding probe_liveness_candidate
    probe-keeps x cb at p =
        let stored : FetchMetadata = record {
          etag = x.external_etag;
          last_modified = x.external_last_modified;
        } in
        probed-keeps x stored _ _
          (λ confirmed same.
            a.answers stored cb.world
              (subst (λ v. (s.fetch v stored cb.world).1 ≡ ok gone) (at same) confirmed))
          (a.fetches x.uri stored cb.world p)

    probe_all-keeps :
        (xs : List StaleFeedResource) (cb : PipelineCallback W)
        → All (λ (x : StaleFeedResource). x.resource_id ≡ r → x.uri ≡ u) xs
        → P cb.world
        → P (probe_all s c xs cb).0.world
    unfolding probe_all
    probe_all-keeps [] cb at p = p
    probe_all-keeps (x ∷ xs) cb at p =
        let one = probe_liveness_candidate s c x cb in
        let here = probe-keeps x cb at.0 p in
        elim (Result-cases one.1) [
          | inl (e, failed) ↦ rw (failed, probe_all) here
          | inr (done, went) ↦ rw (went, probe_all) (probe_all-keeps xs one.0 at.1 here)
        ]

    sweep_listed-keeps :
        (listed : Result Error (List StaleFeedResource)) (cb : PipelineCallback W)
        → ((xs : List StaleFeedResource)
            → listed ≡ ok xs
            → All (λ (x : StaleFeedResource). x.resource_id ≡ r → x.uri ≡ u) xs)
        → P cb.world
        → P (sweep_listed s c listed cb).0.world
    unfolding sweep_listed unseen
    sweep_listed-keeps (err e) cb at p = p
    sweep_listed-keeps (ok xs) cb at p =
        let placed = λ (x : StaleFeedResource). x.resource_id ≡ r → x.uri ≡ u in
        let unmet = λ (x : StaleFeedResource). not (contains x.uri cb.seen) in
        probe_all-keeps (unseen s c cb.seen xs) cb
          (All-take placed feed_liveness_batch_limit (keep unmet xs)
            (All-keep placed unmet xs (at xs refl)))
          p

    -- The liveness sweep of a feed never deletes a document on its absence: a document whose origin
    -- answers no 404 or 410 is still in the store afterwards, whatever the run has met, and whatever
    -- else the origins and the store answer.
    pub run_feed_liveness_sweep-keeps :
        (interval : Option ℕ) (cb : PipelineCallback W)
        → P cb.world
        → P (run_feed_liveness_sweep s c interval cb).0.world
    unfolding run_feed_liveness_sweep
    run_feed_liveness_sweep-keeps interval cb p =
        let now = s.utc_now cb.world in
        sweep_listed-keeps _ _ (a.placed _ _ _ _ now.0) (a.lists _ _ _ _ now.0 (a.clock cb.world p))
