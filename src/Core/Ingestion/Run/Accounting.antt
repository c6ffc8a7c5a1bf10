-- ===== src/Core/Ingestion/Run/Accounting.antt =====
-- The account that a run gives of the documents that its ingestor reported.
use localdb.Prelude.{ℕ, suc, ◌+◌, ◌≡◌, refl, ap, List, [], ◌∷◌, true, false, Text, arith}
use localdb.Core.Progress.{IngestionResult, FetchMetadata, discovered}
use localdb.Core.Ingestion.Services.{Services}
use localdb.Core.Ingestion.Callback.{Context, PipelineCallback, no_result}
use localdb.Core.Ingestion.Callback.Counters.{
  At, At-alike, At-on_resource_impl, At-on_skipped, settled, Told, Told-snoc,
}
use localdb.Core.Ingestion.Callback.Gate.{
  Claim, on_validators_refreshed, on_metadata_refreshed, recheck_is_due, rotate_validators,
  rotate_row, write_merged, persist_metadata_write, persisted_outcome,
}
use localdb.Core.Ingestion.Callback.Due.{due_entries_for_source, due_for}
use localdb.Core.Ingestion.Run.{
  Call, resource, fallback, discovered_call, skipped_call, gone_call, lookup_call, validators_call,
  metadata_call, recheck_call, due_call, perform_call, perform_calls,
}

-- How many of the calls report a document.
abbrev pub reports : List Call → ℕ
reports [] = 0
reports (resource r ∷ calls) = suc (reports calls)
reports (fallback r ∷ calls) = suc (reports calls)
reports (skipped_call uri reason ∷ calls) = suc (reports calls)
reports (discovered_call total ∷ calls) = reports calls
reports (gone_call uri ∷ calls) = reports calls
reports (lookup_call uri ∷ calls) = reports calls
reports (validators_call uri meta ∷ calls) = reports calls
reports (metadata_call uri claim ∷ calls) = reports calls
reports (recheck_call uri claim ∷ calls) = reports calls
reports (due_call ∷ calls) = reports calls

module _ {W : Type 0} where
  same_levels : (a d f : ℕ) (cb : PipelineCallback W) → At a d f cb → At (a + 0) (d + 0) (f + 0) cb
  unfolding At
  same_levels a d f cb h =
      let a0 : a + 0 ≡ a = omega arith in
      let d0 : d + 0 ≡ d = omega arith in let f0 : f + 0 ≡ f = omega arith in rw (a0, d0, f0) h

  one_more :
      (a d f n : ℕ) (cb : PipelineCallback W)
      → At (a + 1 + n) (d + 1 + n) (f + 1 + n) cb
      → At (a + suc n) (d + suc n) (f + suc n) cb
  unfolding At
  one_more a d f n cb h =
      let a1 : a + suc n ≡ a + 1 + n = omega arith in
      let d1 : d + suc n ≡ d + 1 + n = omega arith in
      let f1 : f + suc n ≡ f + 1 + n = omega arith in rw (a1, d1, f1) h

module _ {W : Type 0} (s : Services W) (c : Context) where
  -- The counters and the events are as they were.
  abbrev Same : PipelineCallback W → PipelineCallback W → Type 0
  Same cb end =
      (end.result ≡ cb.result) × (end.next_index ≡ cb.next_index) × (end.progress ≡ cb.progress)

  Same-validators :
      (uri : Text) (meta : FetchMetadata) (cb : PipelineCallback W)
      → Same cb (on_validators_refreshed s c uri meta cb).0
  unfolding on_validators_refreshed rotate_validators rotate_row persist_metadata_write
      persisted_outcome
  Same-validators uri meta cb = ground arith

  Same-metadata :
      (uri : Text) (claim : Claim) (cb : PipelineCallback W)
      → Same cb (on_metadata_refreshed s c uri claim cb).0
  unfolding on_metadata_refreshed write_merged persist_metadata_write persisted_outcome
  Same-metadata uri claim cb = ground arith

  Same-recheck :
      (uri : Text) (claim : Claim) (cb : PipelineCallback W)
      → Same cb (recheck_is_due s c uri claim cb).0
  unfolding recheck_is_due
  Same-recheck uri claim cb = ground arith

  Same-due : (cb : PipelineCallback W) → Same cb (due_entries_for_source s c cb).0
  unfolding due_entries_for_source due_for
  Same-due cb = ground arith

  At-discovered :
      (total a d f : ℕ) (cb : PipelineCallback W)
      → At a d f cb
      → At a d f (perform_call s c (discovered_call total) cb)
  unfolding At perform_call
  At-discovered total a d f cb h =
      let told = Told-snoc cb.progress (discovered total) a f h.3 in
      let none_started : a + 0 ≡ a = omega arith in
      let none_finished : f + 0 ≡ f = omega arith in
      (h.0, h.1, h.2, rw (none_started, none_finished) at told)

  At-Same : (a d f : ℕ) (cb end : PipelineCallback W) → Same cb end → At a d f cb → At a d f end
  At-Same a d f cb end same h = At-alike a d f cb end same.0 same.1 same.2 h

  At-perform_calls :
      (calls : List Call) (a d f : ℕ) (cb : PipelineCallback W)
      → At a d f cb
      → At (a + reports calls) (d + reports calls) (f + reports calls) (perform_calls s c calls cb)
  unfolding perform_calls perform_call
  At-perform_calls [] a d f cb h = same_levels a d f cb h
  At-perform_calls (resource r ∷ calls) a d f cb h =
      one_more a d f (reports calls) _ (
        At-perform_calls calls (a + 1) (d + 1) (f + 1) _
          (At-on_resource_impl s c r true a d f cb h))
  At-perform_calls (fallback r ∷ calls) a d f cb h = one_more a d f (reports calls) _ (
      At-perform_calls calls (a + 1) (d + 1) (f + 1) _ (At-on_resource_impl s c r false a d f cb h))
  At-perform_calls (skipped_call uri reason ∷ calls) a d f cb h =
      one_more a d f (reports calls) _
        (At-perform_calls calls (a + 1) (d + 1) (f + 1) _ (At-on_skipped s c uri reason a d f cb h))
  At-perform_calls (discovered_call total ∷ calls) a d f cb h =
      At-perform_calls calls a d f _ (At-discovered total a d f cb h)
  At-perform_calls (gone_call uri ∷ calls) a d f cb h =
      At-perform_calls calls a d f _ (At-Same a d f cb _ (refl, refl, refl) h)
  At-perform_calls (lookup_call uri ∷ calls) a d f cb h = At-perform_calls calls a d f cb h
  At-perform_calls (validators_call uri meta ∷ calls) a d f cb h =
      At-perform_calls calls a d f _ (At-Same a d f cb _ (Same-validators uri meta cb) h)
  At-perform_calls (metadata_call uri claim ∷ calls) a d f cb h =
      At-perform_calls calls a d f _ (At-Same a d f cb _ (Same-metadata uri claim cb) h)
  At-perform_calls (recheck_call uri claim ∷ calls) a d f cb h =
      At-perform_calls calls a d f _ (At-Same a d f cb _ (Same-recheck uri claim cb) h)
  At-perform_calls (due_call ∷ calls) a d f cb h =
      At-perform_calls calls a d f _ (At-Same a d f cb _ (Same-due cb) h)

  -- Whatever an ingestor reports, each report counts as one document seen and as exactly one of
  -- indexed, skipped, metadata updated, unsupported and failed, whatever the store and the embedder
  -- answer; and a sink is told of as many starts and as many ends. This holds from a state in which
  -- nothing was met.
  pub perform_calls-account :
      (calls : List Call) (cb : PipelineCallback W)
      → cb.result ≡ no_result
      → cb.next_index ≡ 0
      → Told cb.progress 0 0
      → let end = perform_calls s c calls cb in
        (end.result.docs_seen ≡ reports calls)
        × (settled end.result ≡ reports calls)
        × (end.next_index ≡ reports calls)
        × Told end.progress (reports calls) (reports calls)
  unfolding At
  perform_calls-account calls cb r n told =
      let run =
        At-perform_calls calls 0 0 0 cb
          (ap (λ (x : IngestionResult). x.docs_seen) r, ap settled r, n, told) in
      let from_none : 0 + reports calls ≡ reports calls = omega arith in rw from_none at run
