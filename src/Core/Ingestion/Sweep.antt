-- ===== src/Core/Ingestion/Sweep.antt =====
-- What a run removes: `prune_or_count` and the two removal paths of `run_source_ingestion` in
-- core/src/ingestion.rs. Logging is left out.
pub mod Members
pub mod Owned
pub mod Frame
pub mod Safety
pub mod Loops
pub mod Preview
use localdb.Prelude.{
  ℕ, ◌+◌, Option, none, some, List, [], ◌∷◌, Bool, true, false, not, ◌&&◌, ◌||◌, Text, text_eq,
  contains, if◌then◌else◌, keep,
}
use localdb.Core.Errors.{Error, Result, ok, err}
use localdb.Core.Resource.{is_feed}
use localdb.Core.Ingestion.Services.{Services}
use localdb.Core.Ingestion.Index.{DocumentIndex, DeletionPolicy, retain, prune, get, uris}
use localdb.Core.Ingestion.Callback.{Context, PipelineCallback, tally}
use localdb.Core.Ingestion.Callback.Gate.{feed_interval}
use localdb.Core.Ingestion.Liveness.{delete_document, run_feed_liveness_sweep}

pub data Enumeration : Type 0 where
  complete : Enumeration
  incomplete : Text → Enumeration

-- `enumeration` is `Complete`.
abbrev pub is_complete : Enumeration → Bool
is_complete complete = true
is_complete (incomplete reason) = false

pub data SweepSuppression : Type 0 where
  incomplete_enumeration : Text → SweepSuppression
  zero_seen : SweepSuppression

-- `doc_index.get(uri).is_some_and(|record| record.source_id == source.id)`.
unfoldable pub owned_by : Text → DocumentIndex → Text → Bool
unfolding text_eq
owned_by source_id index uri = elim (get uri index) [
  | none ↦ false
  | some r ↦ text_eq r.source_id source_id
]

abbrev pub is_nil {ℓ} : {A : Type ℓ} → List A → Bool
is_nil [] = true
is_nil (x ∷ xs) = false

-- `Iterator::any` over membership in a set.
unfoldable pub any_in : List Text → List Text → Bool
unfolding contains
any_in seen [] = false
any_in seen (uri ∷ rest) = contains uri seen || any_in seen rest

unfoldable pub suppressed_because : Enumeration → List Text → List Text → Option SweepSuppression
unfolding any_in
suppressed_because (incomplete reason) owned seen = some (incomplete_enumeration reason)
suppressed_because complete owned seen =
    if not (is_nil owned) && not (any_in seen owned) then some zero_seen else none

unfoldable pub owned_uris : Text → DocumentIndex → List Text
unfolding owned_by
owned_uris source_id index = keep (owned_by source_id index) (uris index)

module _ {W : Type 0} (s : Services W) (c : Context) where
  unfoldable pub prune_or_count :
      DeletionPolicy → Text → PipelineCallback W → PipelineCallback W × Result Error (Unit {0})
  unfolding delete_document
  prune_or_count retain uri cb =
      (tally (λ r. record r { docs_prunable = r.docs_prunable + 1 }) cb, ok tt)
  prune_or_count prune uri cb = elim (get uri cb.doc_index) [
    | none ↦ (cb, ok tt)
    | some old_record ↦ delete_document s c uri old_record.resource_id cb
  ]

  -- `for uri in uris { if test(uri) { prune_or_count(uri)? } }`.
  unfoldable pub prune_each :
      DeletionPolicy
      → (DocumentIndex → Text → Bool)
      → List Text
      → PipelineCallback W
      → PipelineCallback W × Result Error (Unit {0})
  unfolding prune_or_count
  prune_each deletion test [] cb = (cb, ok tt)
  prune_each deletion test (uri ∷ rest) cb =
      let (cb', answer) = prune_or_count deletion uri cb in
      let passed = prune_each deletion test rest cb in
      let went = prune_each deletion test rest cb' in
      if test cb.doc_index uri
      then elim answer [ err e ↦ (cb', err e) | ok done ↦ went ]
      else passed

  -- The documents that were confirmed gone.
  unfoldable pub prune_gone :
      DeletionPolicy → PipelineCallback W → PipelineCallback W × Result Error (Unit {0})
  unfolding prune_each owned_by
  prune_gone deletion cb = prune_each deletion (owned_by c.source.id) cb.gone cb

  -- The documents that the run did not meet.
  unfoldable pub prune_unseen :
      DeletionPolicy → List Text → PipelineCallback W → PipelineCallback W × Result Error (Unit {0})
  unfolding prune_each contains
  prune_unseen deletion owned cb =
      prune_each deletion (λ index uri. not (contains uri cb.seen || contains uri cb.gone)) owned cb

  delete_sweep :
      DeletionPolicy
      → Option SweepSuppression
      → List Text
      → PipelineCallback W
      → PipelineCallback W × Result Error (Unit {0})
  unfolding prune_unseen
  delete_sweep deletion (some reason) owned cb = (cb, ok tt)
  delete_sweep deletion none owned cb = prune_unseen deletion owned cb

  liveness_sweep :
      DeletionPolicy
      → Option SweepSuppression
      → PipelineCallback W
      → PipelineCallback W × Result Error (Unit {0})
  unfolding run_feed_liveness_sweep
  liveness_sweep retain reason cb = (cb, ok tt)
  liveness_sweep prune (some (incomplete_enumeration why)) cb = (cb, ok tt)
  liveness_sweep prune (some zero_seen) cb =
      run_feed_liveness_sweep s c (feed_interval c.source.spec) cb
  liveness_sweep prune none cb = run_feed_liveness_sweep s c (feed_interval c.source.spec) cb

  -- The sweep that the kind of the source has, behind the guards.
  unfoldable pub sweep :
      DeletionPolicy
      → Enumeration
      → PipelineCallback W
      → PipelineCallback W × Result Error (Unit {0})
  unfolding owned_uris suppressed_because delete_sweep liveness_sweep
  sweep deletion enumeration cb =
      let owned = owned_uris c.source.id cb.doc_index in
      let reason = suppressed_because enumeration owned cb.seen in
      if not (is_feed c.source.spec)
      then delete_sweep deletion reason owned cb
      else liveness_sweep deletion reason cb

  after_gone :
      DeletionPolicy
      → Enumeration
      → PipelineCallback W × Result Error (Unit {0})
      → PipelineCallback W × Result Error (Unit {0})
  unfolding sweep
  after_gone deletion enumeration (cb, err e) = (cb, err e)
  after_gone deletion enumeration (cb, ok done) = sweep deletion enumeration cb

  -- All removals of a run, after its ingestor has returned.
  unfoldable pub remove_documents :
      DeletionPolicy
      → Enumeration
      → PipelineCallback W
      → PipelineCallback W × Result Error (Unit {0})
  unfolding prune_gone after_gone
  remove_documents deletion enumeration cb =
      after_gone deletion enumeration (prune_gone deletion cb)
