-- ===== src/Core/Ingestion/Callback/Again.antt =====
-- `on_resource_impl` on a resource that the call before it has just stored.
use localdb.Prelude.{
  ℕ, ◌+◌, ◌≡◌, ◌⊎◌, refl, ◌∙◌, ap, inl, inr, Option, none, some, Bool, true, ◌&&◌, Text, text_eq,
  text_eq_iff, text_eq_refl, lookup-insert, option_eq, arith, Bool-cases, Option-cases,
}
use localdb.Core.Errors.{Error, Result, ok, err, Result-cases}
use localdb.Core.Progress.{IngestionResult}
use localdb.Core.Resource.{Resource}
use localdb.Core.Ingestion.Services.{Services}
use localdb.Core.Ingestion.Index.{DocumentIndex, DocumentRecord, get, upsert}
use localdb.Core.Ingestion.Pipeline.{written, empty, derive_resource_state, index_resource}
use localdb.Core.Ingestion.Pipeline.Written.{index_resource-written}
use localdb.Core.Ingestion.Callback.{
  Context, PipelineCallback, meet, start_document, tally, one_skipped, is_network_source,
}
use localdb.Core.Ingestion.Callback.Documents.{
  touched, touch_checked, touch_if, skip_same, metadata_written, update_metadata, refreshed_record,
  settle_outcome, index_again, indexed_record, resource_known, on_resource_met, on_resource_impl,
}

get-upsert :
    (uri : Text) (d : DocumentRecord) (index : DocumentIndex)
    → d.uri ≡ uri
    → get uri (upsert d index) ≡ some d
get-upsert uri d index e =
    ground (arith, lookup-insert d.uri uri d index, (text_eq_iff d.uri uri).1 e)

option_eq_refl : (o : Option Text) → option_eq text_eq o o ≡ true
option_eq_refl none = refl
option_eq_refl (some t) = text_eq_refl t

module _ {W : Type 0} (s : Services W) (c : Context) where
  -- The record is that of the resource as it is now.
  abbrev IsCurrent : Resource → DocumentRecord → Type 0
  IsCurrent r d =
      (d.uri ≡ r.uri)
      × (text_eq d.content_hash r.content_hash ≡ true)
      × (text_eq d.policy_version c.config.policy_version ≡ true)
      × (text_eq d.metadata_hash (derive_resource_state s r).metadata_hash ≡ true)
      × (option_eq text_eq d.external_last_modified r.external_last_modified ≡ true)

  abbrev Current : Resource → DocumentIndex → Type 0
  Current r index = (d : DocumentRecord) × ((get r.uri index ≡ some d) × IsCurrent r d)

  Current-touched :
      (r : Resource) (answer : Result Error (Unit {0})) (cb : PipelineCallback W)
      → Current r cb.doc_index
      → Current r (touched s c r.uri answer cb).doc_index
  unfolding touched
  Current-touched r (err e) cb now = now
  Current-touched r (ok done) cb (d, (known, is)) =
      let later = record d { last_checked_at = some (s.now_rfc3339 cb.world).1 } in
      rw (known, touched) (later, (get-upsert r.uri later cb.doc_index is.0, is))

  Current-touch_if :
      (origin : Bool) (r : Resource) (id : Text) (cb : PipelineCallback W)
      → Current r cb.doc_index
      → Current r (touch_if s c origin r.uri id cb).doc_index
  unfolding touch_if touch_checked
  Current-touch_if origin r id cb now =
      let ran = s.touch_resource_checked c.config.store_id id cb.world in
      let touching = Current-touched r ran.1 (record cb { world = ran.0 }) now in
      elim (Bool-cases (is_network_source c.source.spec && origin)) [
        | inl guard ↦ rw (guard, touch_if) touching
        | inr guard ↦ rw (guard, touch_if) now
      ]

  Current-settle_outcome :
      (r : Resource) (origin : Bool) (n : ℕ) (cb : PipelineCallback W)
      → Current r
          (settle_outcome s c r origin
            (ok (written n (derive_resource_state s r).metadata_hash))
            cb).doc_index
  unfolding settle_outcome indexed_record
  Current-settle_outcome r origin n cb =
      let d = indexed_record s c r (derive_resource_state s r).metadata_hash in
      Current-touch_if origin r r.id _ (
        d,
        (
          get-upsert r.uri d cb.doc_index refl,
          (
            refl,
            text_eq_refl r.content_hash,
            text_eq_refl c.config.policy_version,
            text_eq_refl (derive_resource_state s r).metadata_hash,
            option_eq_refl r.external_last_modified,
          ),
        ),
      )

  -- A resource that the index has as it is now is skipped.
  skips :
      (r : Resource) (origin : Bool) (cb : PipelineCallback W)
      → Current r cb.doc_index
      → (d : DocumentRecord) × (on_resource_impl s c r origin cb
          ≡ skip_same s c r.uri origin d (meet r.uri cb))
  unfolding on_resource_impl on_resource_met resource_known
  skips r origin cb (d, (known, is)) =
      (d, rw (known, on_resource_impl) (ground (arith, is.1, is.2, is.3, is.4)))

  touch_if-result :
      (origin : Bool) (uri id : Text) (cb : PipelineCallback W)
      → (touch_if s c origin uri id cb).result ≡ cb.result
  unfolding touch_if touch_checked touched
  touch_if-result origin uri id cb = ground arith

  skip_same-result :
      (uri : Text) (origin : Bool) (d : DocumentRecord) (cb : PipelineCallback W)
      → (skip_same s c uri origin d cb).result ≡ one_skipped cb.result
  unfolding skip_same
  skip_same-result uri origin d cb = touch_if-result origin uri d.resource_id (tally one_skipped cb)

  metadata_written-indexed :
      (r : Resource) (origin : Bool) (d : DocumentRecord) (answer : Result Error (Unit {0}))
      (cb : PipelineCallback W)
      → (metadata_written s c r origin d answer cb).result.docs_indexed ≡ cb.result.docs_indexed
  unfolding metadata_written
  metadata_written-indexed r origin d (err e) cb = refl
  metadata_written-indexed r origin d (ok done) cb =
      ap (λ (x : IngestionResult). x.docs_indexed) (touch_if-result origin r.uri d.resource_id _)

  update_metadata-indexed :
      (r : Resource) (origin : Bool) (d : DocumentRecord) (cb : PipelineCallback W)
      → (update_metadata s c r origin d cb).result.docs_indexed ≡ cb.result.docs_indexed
  unfolding update_metadata
  update_metadata-indexed r origin d cb =
      let ran =
        s.update_resource_metadata c.config.store_id d.resource_id
          (refreshed_record s c (derive_resource_state s r) r) cb.world in
      metadata_written-indexed r origin d ran.1 (record cb { world = ran.0 })

  meet-result :
      (uri : Text) (cb : PipelineCallback W)
      → (meet uri cb).result ≡ record cb.result { docs_seen = cb.result.docs_seen + 1 }
  unfolding meet start_document
  meet-result uri cb = refl

  -- Either nothing was indexed, or the index has the resource as it is now.
  Settles : Resource → PipelineCallback W → PipelineCallback W → Type 0
  Settles r cb end = (end.result.docs_indexed ≡ cb.result.docs_indexed) ⊎ Current r end.doc_index

  met_first :
      (r : Resource) (cb end : PipelineCallback W)
      → Settles r (meet r.uri cb) end
      → Settles r cb end
  unfolding Settles meet start_document
  met_first r cb end h = h

  index_again-Settles :
      (r : Resource) (origin : Bool) (replaces : Option Text) (cb : PipelineCallback W)
      → Settles r cb (index_again s c r origin replaces cb)
  unfolding index_again Settles settle_outcome
  index_again-Settles r origin replaces cb =
      let ran = index_resource s c.config r c.source replaces cb.world in
      elim (Result-cases ran.1) [
        | inl (e, failed) ↦ rw (failed, index_again) (inl refl)
        | inr (empty, done) ↦ rw (done, index_again) (inl refl)
        | inr (written n hash, done) ↦
            let (outputs, vectors, chunked, embedded, some_, keeps) =
              index_resource-written s c.config r replaces c.source cb.world n hash done in
            rw (done, index_again)
              (inr (rw keeps.3 (Current-settle_outcome r origin n (record cb { world = ran.0 }))))
      ]

  resource_known-Settles :
      (r : Resource) (origin : Bool) (d : DocumentRecord) (cb met : PipelineCallback W)
      → Settles r cb (skip_same s c r.uri origin d met)
      → Settles r cb (update_metadata s c r origin d met)
      → Settles r cb (index_again s c r origin (some d.resource_id) met)
      → Settles r cb (resource_known s c r origin d met)
  unfolding resource_known
  resource_known-Settles r origin d cb met p q t = ground arith

  on_resource_impl-Settles :
      (r : Resource) (origin : Bool) (cb : PipelineCallback W)
      → Settles r cb (on_resource_impl s c r origin cb)
  unfolding on_resource_impl on_resource_met resource_known Settles
  on_resource_impl-Settles r origin cb =
      let met = meet r.uri cb in
      elim (Option-cases (get r.uri cb.doc_index)) [
        | inl new ↦
            rw (new, on_resource_impl)
              (met_first r cb (index_again s c r origin none met)
                (index_again-Settles r origin none met))
        | inr (d, known) ↦
            rw (known, on_resource_impl)
              (resource_known-Settles r origin d cb met
                (inl (
                  ap (λ (x : IngestionResult). x.docs_indexed)
                    (skip_same-result r.uri origin d met)))
                (inl (update_metadata-indexed r origin d met))
                (met_first r cb (index_again s c r origin (some d.resource_id) met)
                  (index_again-Settles r origin (some d.resource_id) met)))
      ]

  -- A resource that a run has indexed is not indexed again when it is reported once more as it was and
  -- at once, with no other call of the callback in between: it counts as seen and as skipped, and no
  -- other counter moves, whatever the store answers.
  pub on_resource_impl-again :
      (r : Resource) (origin origin' : Bool) (cb : PipelineCallback W)
      → (on_resource_impl s c r origin cb).result.docs_indexed ≡ cb.result.docs_indexed + 1
      → let once = on_resource_impl s c r origin cb in
        (on_resource_impl s c r origin' once).result
        ≡ one_skipped (record once.result { docs_seen = once.result.docs_seen + 1 })
  unfolding Settles
  on_resource_impl-again r origin origin' cb grown =
      let once = on_resource_impl s c r origin cb in
      elim (on_resource_impl-Settles r origin cb) [
        | inl same ↦ absurd (omega (arith, same, grown))
        | inr now ↦
            let (d, step) = skips r origin' once now in
            rw step (
              skip_same-result r.uri origin' d (meet r.uri once)
              ∙ ap one_skipped (meet-result r.uri once))
      ]
