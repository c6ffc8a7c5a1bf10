-- ===== src/Core/Ingestion/Callback/Counters.antt =====
-- The counters of a run and its progress events: each document that is met ends in one counter, and
-- its end is announced once.
use mathlib.Core.Path.{subst}
use localdb.Prelude.{
  ℕ, ◌+◌, ◌≡◌, ap, ◌∙◌, map_option, ◌&&◌, refl, inl, inr, Option, none, some, List, [], ◌∷◌, ◌++◌,
  Bool, true, false, Text, count, arith, Bool-cases, Option-cases, if◌then◌else◌,
}
use localdb.Core.Errors.{Error, Result, ok, err}
use localdb.Core.Progress.{
  IngestionResult, ProgressEvent, source_started, discovered, document_started, document_finished,
  source_finished, DocOutcome, skipped, indexed, errored, metadata_updated, unsupported,
}
use localdb.Core.Resource.{Resource}
use localdb.Core.Ingestion.Services.{Services}
use localdb.Core.Ingestion.Index.{DocumentRecord, get}
use localdb.Core.Ingestion.Pipeline.{
  IndexOutcome, written, empty, index_resource, derive_resource_state,
}
use localdb.Core.Ingestion.Callback.{
  Context, PipelineCallback, SkipReason, unchanged, unsupported_format, other, error,
  metadata_refreshed, fresh, meet, is_network_source, one_skipped, one_unsupported, one_error,
  one_metadata_updated, one_deferred, one_indexed, start_document, tally, finish,
}
use localdb.Core.Ingestion.Callback.Documents.{
  touched, refreshed_record, touch_checked, touch_if, skip_same, metadata_written, update_metadata,
  settle_outcome, index_again, resource_known, on_resource_met, on_resource_impl, touch_known,
  skipped_for, on_skipped,
}

abbrev pub is_started : ProgressEvent → Bool
is_started (document_started uri index total) = true
is_started (document_finished uri outcome) = false
is_started (source_started id location) = false
is_started (discovered total) = false
is_started (source_finished result) = false

abbrev pub is_finished : ProgressEvent → Bool
is_finished (document_started uri index total) = false
is_finished (document_finished uri outcome) = true
is_finished (source_started id location) = false
is_finished (discovered total) = false
is_finished (source_finished result) = false

-- The documents that were counted under one of the outcomes.
abbrev pub settled : IngestionResult → ℕ
settled r =
    r.docs_indexed + r.docs_skipped + r.docs_metadata_updated + r.unsupported_format_count
    + r.error_count

-- How many documents the events start and finish, if there is a sink.
abbrev pub Told : Option (List ProgressEvent) → ℕ → ℕ → Type 0
Told none started finished = Unit
Told (some events) started finished =
    (count is_started events ≡ started) × (count is_finished events ≡ finished)

count-snoc :
    (test : ProgressEvent → Bool) (events : List ProgressEvent) (e : ProgressEvent)
    → count test (events ++ e ∷ []) ≡ count test events + (if test e then 1 else 0)
count-snoc test [] e = omega arith
count-snoc test (x ∷ events) e = omega (arith, count-snoc test events e)

pub Told-snoc :
    (progress : Option (List ProgressEvent)) (e : ProgressEvent) (a b : ℕ)
    → Told progress a b
    → Told
        (map_option (λ events. events ++ e ∷ []) progress)
        (a + (if is_started e then 1 else 0))
        (b + (if is_finished e then 1 else 0))
Told-snoc none e a b t = tt
Told-snoc (some events) e a b t = (
  count-snoc is_started events e ∙ ap (λ n. n + (if is_started e then 1 else 0)) t.0,
  count-snoc is_finished events e ∙ ap (λ n. n + (if is_finished e then 1 else 0)) t.1,
)

module _ {W : Type 0} where
  -- `seen` documents were met and started, `done` of them are counted under an outcome and
  -- `finished` of them are announced as finished.
  unfoldable pub At : ℕ → ℕ → ℕ → PipelineCallback W → Type 0
  At seen done finished cb =
      (cb.result.docs_seen ≡ seen)
      × (settled cb.result ≡ done)
      × (cb.next_index ≡ seen)
      × Told cb.progress seen finished

  At-meet :
      (uri : Text) (a d f : ℕ) (cb : PipelineCallback W)
      → At a d f cb
      → At (a + 1) d f (meet uri cb)
  unfolding meet start_document At
  At-meet uri a d f cb h = (
    omega (arith, h.0),
    h.1,
    omega (arith, h.2),
    subst (Told _ (a + 1)) (omega arith)
        (Told-snoc cb.progress (document_started uri cb.next_index cb.discovered_total) a f h.3),
  )

  At-finish :
      (uri : Text) (outcome : DocOutcome) (g : IngestionResult → IngestionResult) (a d e f : ℕ)
      (cb : PipelineCallback W)
      → (g cb.result).docs_seen ≡ cb.result.docs_seen
      → settled (g cb.result) + d ≡ settled cb.result + e
      → At a d f cb
      → At a e (f + 1) (finish uri outcome g cb)
  unfolding At
  At-finish uri outcome g a d e f cb same more h =
      let none_started : a + 0 ≡ a = omega arith in
      (
        same ∙ h.0,
        omega (arith, more, h.1),
        h.2,
        subst (λ n. Told ((finish uri outcome g cb).progress) n (f + 1)) none_started
            (Told-snoc cb.progress (document_finished uri outcome) a f h.3),
      )

  -- What changes neither the counters nor the events.
  pub At-alike :
      (a d f : ℕ) (cb end : PipelineCallback W)
      → end.result ≡ cb.result
      → end.next_index ≡ cb.next_index
      → end.progress ≡ cb.progress
      → At a d f cb
      → At a d f end
  unfolding At
  At-alike a d f cb end r n p h = rw (r, n, p) h

  At-tally :
      (g : IngestionResult → IngestionResult) (a d e f : ℕ) (cb : PipelineCallback W)
      → (g cb.result).docs_seen ≡ cb.result.docs_seen
      → settled (g cb.result) + d ≡ settled cb.result + e
      → At a d f cb
      → At a e f (tally g cb)
  unfolding At
  At-tally g a d e f cb same more h = (same ∙ h.0, omega (arith, more, h.1), h.2, h.3)

module _ {W : Type 0} (s : Services W) (c : Context) where
  At-touch_checked :
      (uri id : Text) (a d f : ℕ) (cb : PipelineCallback W)
      → At a d f cb
      → At a d f (touch_checked s c uri id cb)
  unfolding touch_checked touched
  At-touch_checked uri id a d f cb h =
      At-alike a d f cb (touch_checked s c uri id cb) (ground arith) (ground arith) (ground arith) h

  At-touch_if :
      (origin : Bool) (uri id : Text) (a d f : ℕ) (cb : PipelineCallback W)
      → At a d f cb
      → At a d f (touch_if s c origin uri id cb)
  unfolding touch_if
  At-touch_if origin uri id a d f cb h =
      elim (Bool-cases (is_network_source c.source.spec && origin)) [
        | inl yes' ↦ rw (yes', touch_if) (At-touch_checked uri id a d f cb h)
        | inr no' ↦ rw (no', touch_if) h
      ]

  At-settle_outcome :
      (r : Resource) (origin : Bool) (outcome : Result Error IndexOutcome) (a d f : ℕ)
      (cb : PipelineCallback W)
      → At a d f cb
      → At a (d + 1) (f + 1) (settle_outcome s c r origin outcome cb)
  unfolding settle_outcome
  At-settle_outcome r origin (ok empty) a d f cb h =
      At-finish r.uri skipped one_skipped a d (d + 1) f cb refl (omega arith) h
  At-settle_outcome r origin (ok (written chunks hash)) a d f cb h =
      At-finish r.uri (indexed chunks) (λ r. r) a (d + 1) (d + 1) f _ refl refl
        (At-touch_if origin r.uri r.id a (d + 1) f _ (
          At-tally (one_indexed chunks) a d (d + 1) f _ refl (omega arith)
            (At-alike a d f cb _ refl refl refl h)))
  At-settle_outcome r origin (err e) a d f cb h =
      At-finish r.uri errored one_error a d (d + 1) f cb refl (omega arith) h

  At-metadata_written :
      (r : Resource) (origin : Bool) (existing : DocumentRecord) (answer : Result Error (Unit {0}))
      (a d f : ℕ) (cb : PipelineCallback W)
      → At a d f cb
      → At a (d + 1) (f + 1) (metadata_written s c r origin existing answer cb)
  unfolding metadata_written
  At-metadata_written r origin existing (err e) a d f cb h =
      At-finish r.uri errored one_error a d (d + 1) f cb refl (omega arith) h
  At-metadata_written r origin existing (ok done) a d f cb h =
      At-finish r.uri metadata_updated (λ r. r) a (d + 1) (d + 1) f _ refl refl
        (At-touch_if origin r.uri existing.resource_id a (d + 1) f _ (
          At-tally one_metadata_updated a d (d + 1) f _ refl (omega arith)
            (At-alike a d f cb _ refl refl refl h)))

  -- Each way through `on_resource_impl` settles the document that was met and announces its end.
  At-index_again :
      (r : Resource) (origin : Bool) (replaces : Option Text) (a d f : ℕ) (cb : PipelineCallback W)
      → At a d f cb
      → At a (d + 1) (f + 1) (index_again s c r origin replaces cb)
  unfolding index_again
  At-index_again r origin replaces a d f cb h =
      let ran = index_resource s c.config r c.source replaces cb.world in
      At-settle_outcome r origin ran.1 a d f (record cb { world = ran.0 })
        (At-alike a d f cb (record cb { world = ran.0 }) refl refl refl h)

  At-update_metadata :
      (r : Resource) (origin : Bool) (existing : DocumentRecord) (a d f : ℕ)
      (cb : PipelineCallback W)
      → At a d f cb
      → At a (d + 1) (f + 1) (update_metadata s c r origin existing cb)
  unfolding update_metadata
  At-update_metadata r origin existing a d f cb h =
      let ran =
        s.update_resource_metadata c.config.store_id existing.resource_id
          (refreshed_record s c (derive_resource_state s r) r) cb.world in
      At-metadata_written r origin existing ran.1 a d f (record cb { world = ran.0 })
        (At-alike a d f cb (record cb { world = ran.0 }) refl refl refl h)

  At-skip_same :
      (uri : Text) (origin : Bool) (existing : DocumentRecord) (a d f : ℕ) (cb : PipelineCallback W)
      → At a d f cb
      → At a (d + 1) (f + 1) (skip_same s c uri origin existing cb)
  unfolding skip_same
  At-skip_same uri origin existing a d f cb h =
      At-finish uri skipped (λ r. r) a (d + 1) (d + 1) f _ refl refl
        (At-touch_if origin uri existing.resource_id a (d + 1) f _
          (At-tally one_skipped a d (d + 1) f cb refl (omega arith) h))

  At-touch_known :
      (uri : Text) (a d f : ℕ) (cb : PipelineCallback W)
      → At a d f cb
      → At a d f (touch_known s c uri cb)
  unfolding touch_known
  At-touch_known uri a d f cb h = elim (Option-cases (get uri cb.doc_index)) [
    | inl new ↦ rw (new, touch_known) h
    | inr (existing, known) ↦
        rw (known, touch_known) (At-touch_if true uri existing.resource_id a d f cb h)
  ]

  At-skipped_for :
      (uri : Text) (reason : SkipReason) (a d f : ℕ) (cb : PipelineCallback W)
      → At a d f cb
      → At a (d + 1) (f + 1) (skipped_for s c uri reason cb)
  unfolding skipped_for
  At-skipped_for uri unchanged a d f cb h =
      At-finish uri skipped (λ r. r) a (d + 1) (d + 1) f _ refl refl
        (At-touch_known uri a (d + 1) f _
          (At-tally one_skipped a d (d + 1) f cb refl (omega arith) h))
  At-skipped_for uri unsupported_format a d f cb h =
      At-finish uri unsupported one_unsupported a d (d + 1) f cb refl (omega arith) h
  At-skipped_for uri (other why) a d f cb h =
      At-finish uri skipped one_skipped a d (d + 1) f cb refl (omega arith) h
  At-skipped_for uri metadata_refreshed a d f cb h =
      At-finish uri metadata_updated (λ r. r) a (d + 1) (d + 1) f _ refl refl
        (At-touch_known uri a (d + 1) f _
          (At-tally one_metadata_updated a d (d + 1) f cb refl (omega arith) h))
  At-skipped_for uri fresh a d f cb h =
      At-finish uri skipped one_deferred a d (d + 1) f cb refl (omega arith) h
  At-skipped_for uri (error message) a d f cb h =
      let counted = record cb { skip_error_count = cb.skip_error_count + 1 } in
      At-finish uri errored one_error a d (d + 1) f counted refl (omega arith)
        (At-alike a d f cb counted refl refl refl h)

  pub At-on_skipped :
      (uri : Text) (reason : SkipReason) (a d f : ℕ) (cb : PipelineCallback W)
      → At a d f cb
      → At (a + 1) (d + 1) (f + 1) (on_skipped s c uri reason cb)
  unfolding on_skipped
  At-on_skipped uri reason a d f cb h =
      At-skipped_for uri reason (a + 1) d f (meet uri cb) (At-meet uri a d f cb h)

  pub At-on_resource_impl :
      (r : Resource) (origin : Bool) (a d f : ℕ) (cb : PipelineCallback W)
      → At a d f cb
      → At (a + 1) (d + 1) (f + 1) (on_resource_impl s c r origin cb)
  unfolding on_resource_impl on_resource_met resource_known
  At-on_resource_impl r origin a d f cb h =
      let met = meet r.uri cb in
      let m = At-meet r.uri a d f cb h in
      elim (Option-cases (get r.uri cb.doc_index)) [
        | inl new ↦ rw (new, on_resource_impl) (At-index_again r origin none (a + 1) d f met m)
        | inr (existing, known) ↦
            rw (known, on_resource_impl)
              (settles existing (At-skip_same r.uri origin existing (a + 1) d f met m)
                (At-update_metadata r origin existing (a + 1) d f met m)
                (At-index_again r origin (some existing.resource_id) (a + 1) d f met m))
      ]
    where
      settles :
          (existing : DocumentRecord)
          → At (a + 1) (d + 1) (f + 1) (skip_same s c r.uri origin existing (meet r.uri cb))
          → At (a + 1) (d + 1) (f + 1) (update_metadata s c r origin existing (meet r.uri cb))
          → At
              (a + 1)
              (d + 1)
              (f + 1)
              (index_again s c r origin (some existing.resource_id) (meet r.uri cb))
          → At (a + 1) (d + 1) (f + 1) (resource_known s c r origin existing (meet r.uri cb))
      settles existing p q t = ground arith
