-- ===== src/Core/Ingestion/Sweep/Safety.antt =====
-- Which documents the removals of a run leave alone, whatever the store answers.
use mathlib.Core.Path.{subst}
use localdb.Prelude.{
  ◌≡◌, ◌≢◌, refl, sym, ◌∙◌, inl, inr, none, some, List, [], ◌∷◌, Bool, true, false, not, ◌&&◌, ◌||◌,
  Text, text_eq, contains, arith, Bool-cases, Option-cases,
}
use localdb.Core.Errors.{Error, Result, ok, err}
use localdb.Core.Resource.{is_feed}
use localdb.Core.Ingestion.Services.{Services}
use localdb.Core.Ingestion.Index.{
  DocumentIndex, DocumentRecord, DeletionPolicy, retain, prune, get, uris,
}
use localdb.Core.Ingestion.Callback.{Context, PipelineCallback}
use localdb.Core.Ingestion.Sweep.{
  Enumeration, complete, incomplete, is_complete, owned_by, any_in, suppressed_because,
  prune_or_count, prune_gone, owned_uris, prune_unseen, delete_sweep, sweep, after_gone,
  remove_documents,
}
use localdb.Core.Ingestion.Sweep.Members.{contains-keep, contains-uris, any_in-intro, any_in-elim}
use localdb.Core.Ingestion.Sweep.Frame.{
  IsPart, owned_by-record, owned_by-get, delete-frame, prune_or_count-removes,
  prune_or_count-unknown, prune_or_count-frame, prune_each-keeps,
}

-- What licenses the removal of a document: it belongs to the source, and either it was confirmed
-- gone, or the enumeration is complete, met a document of the source and did not meet this one.
unfoldable pub may_remove :
    {W : Type 0} → Context → Enumeration → PipelineCallback W → Text → DocumentRecord → Bool
unfolding contains any_in owned_uris
may_remove c enumeration cb uri d =
    text_eq d.source_id c.source.id
    && (contains uri cb.gone
        || (is_complete enumeration
            && any_in cb.seen (owned_uris c.source.id cb.doc_index)
            && not (contains uri cb.seen)))

-- What is owned in a part of an index is owned in the whole.
owned_uris-part :
    (source_id : Text) (index whole : DocumentIndex) (u : Text)
    → IsPart index whole
    → contains u (owned_uris source_id index) ≡ true
    → (contains u (owned_uris source_id whole) ≡ true) × (owned_by source_id index u ≡ true)
unfolding owned_uris
owned_uris-part source_id index whole u part m =
    let owned : owned_by source_id index u ≡ true =
      ground (arith, contains-keep (owned_by source_id index) u (uris index), m) in
    let (d, known, mine) = owned_by-get source_id index u owned in
    let there = contains-uris u whole d (part u d known) in
    let owns = owned_by-record source_id whole u d (part u d known) in
    (
      ground (arith, contains-keep (owned_by source_id whole) u (uris whole), owns, there, mine),
      owned,
    )

owned_uris-mine :
    (source_id : Text) (index : DocumentIndex) (u : Text) (d : DocumentRecord)
    → contains u (owned_uris source_id index) ≡ true
    → get u index ≡ some d
    → text_eq d.source_id source_id ≡ true
unfolding owned_uris
owned_uris-mine source_id index u d m known = ground (
  arith,
  contains-keep (owned_by source_id index) u (uris index),
  m,
  owned_by-record source_id index u d known,
)

any_in-part :
    (source_id : Text) (seen : List Text) (index whole : DocumentIndex)
    → IsPart index whole
    → any_in seen (owned_uris source_id index) ≡ true
    → any_in seen (owned_uris source_id whole) ≡ true
any_in-part source_id seen index whole part h =
    let (u, m, n) = any_in-elim seen (owned_uris source_id index) h in
    any_in-intro seen u (owned_uris source_id whole)
      (owned_uris-part source_id index whole u part m).0 n

gone-licensed :
    {W : Type 0} (c : Context) (enumeration : Enumeration) (cb : PipelineCallback W) (uri : Text)
    (d : DocumentRecord)
    → contains uri cb.gone ≡ true
    → text_eq d.source_id c.source.id ≡ true
    → may_remove c enumeration cb uri d ≢ false
unfolding may_remove
gone-licensed c enumeration cb uri d listed mine spared = ground arith

unseen-licensed :
    {W : Type 0} (c : Context) (cb : PipelineCallback W) (uri : Text) (d : DocumentRecord)
    → any_in cb.seen (owned_uris c.source.id cb.doc_index) ≡ true
    → contains uri cb.seen ≡ false
    → text_eq d.source_id c.source.id ≡ true
    → may_remove c complete cb uri d ≢ false
unfolding may_remove
unseen-licensed c cb uri d met new mine spared = ground arith

-- Without a reason to suppress the sweep, the enumeration is complete, and a document of the source
-- was met if it has one.
unsuppressed :
    (enumeration : Enumeration) (owned seen : List Text) (u : Text)
    → suppressed_because enumeration owned seen ≡ none
    → contains u owned ≡ true
    → (enumeration ≡ complete) × (any_in seen owned ≡ true)
unfolding suppressed_because contains
unsuppressed complete [] seen u h m = ground (arith, h, m)
unsuppressed complete (x ∷ owned) seen u h m =
    (refl, ground (arith, Bool-cases (any_in seen (x ∷ owned))))
unsuppressed (incomplete reason) owned seen u h m = ground (arith, h)

unseen_of :
    (seen gone : List Text) (uri : Text)
    → not (contains uri seen || contains uri gone) ≡ true
    → contains uri seen ≡ false
unseen_of seen gone uri h = ground (arith, h)

module _ {W : Type 0} (s : Services W) (c : Context) (P : W → Type 0) (r : Text)
    (others : (x : Text) (w : W) → x ≢ r → P w → P (s.delete_by_resource x w).0) where
  -- The state of a removal loop, seen from the state at its start.
  abbrev Holds : PipelineCallback W → PipelineCallback W → Type 0
  Holds cb end =
      P end.world × IsPart end.doc_index cb.doc_index × (end.seen ≡ cb.seen) × (end.gone ≡ cb.gone)

  remove-Holds :
      (deletion : DeletionPolicy) (uri : Text) (cb mid : PipelineCallback W)
      → ((d : DocumentRecord) → get uri mid.doc_index ≡ some d → d.resource_id ≢ r)
      → Holds cb mid
      → Holds cb (prune_or_count s c deletion uri mid).0
  unfolding prune_or_count
  remove-Holds retain uri cb mid spared i = i
  remove-Holds prune uri cb mid spared i = elim (Option-cases (get uri mid.doc_index)) [
    | inl new ↦ rw (prune_or_count-unknown s c uri mid new) i
    | inr (d, known) ↦
        let frame = prune_or_count-frame s c prune uri mid in
        let removes = prune_or_count-removes s c uri mid d known in
        let kept = others d.resource_id mid.world (spared d known) i.0 in
        (
          rw removes (rw (delete-frame s c uri d.resource_id mid).3 kept),
          λ u e h. i.1 u e (frame.0 u e h),
          frame.1 ∙ i.2,
          frame.2 ∙ i.3,
        )
  ]

  -- No document that is licensed for removal in the state has the id.
  abbrev Spared : Enumeration → PipelineCallback W → Type 0
  Spared enumeration cb =
      (uri : Text) (d : DocumentRecord)
      → get uri cb.doc_index ≡ some d
      → d.resource_id ≡ r
      → may_remove c enumeration cb uri d ≡ false

  gone-Holds :
      (deletion : DeletionPolicy) (enumeration : Enumeration) (cb : PipelineCallback W)
      → Spared enumeration cb
      → P cb.world
      → Holds cb (prune_gone s c deletion cb).0
  unfolding prune_gone
  gone-Holds deletion enumeration cb spared p =
      prune_each-keeps s c deletion (owned_by c.source.id) (Holds cb) cb.gone
        (λ uri mid listed owned i.
          remove-Holds deletion uri cb mid
            (λ d known same.
              gone-licensed c enumeration cb uri d listed
                (sym (owned_by-record c.source.id mid.doc_index uri d known) ∙ owned)
                (spared uri d (i.1 uri d known) same))
            i)
        cb.gone (λ u m. m) cb (p, λ u d e. e, refl, refl)

  -- The sweep, from a state that the loop over the confirmed URIs has left.
  unseen-Holds :
      (deletion : DeletionPolicy) (enumeration : Enumeration) (cb mid : PipelineCallback W)
      → Spared enumeration cb
      → suppressed_because enumeration (owned_uris c.source.id mid.doc_index) mid.seen ≡ none
      → Holds cb mid
      → Holds cb (prune_unseen s c deletion (owned_uris c.source.id mid.doc_index) mid).0
  unfolding prune_unseen
  unseen-Holds deletion enumeration cb mid spared free i =
      let owned = owned_uris c.source.id mid.doc_index in
      prune_each-keeps s c deletion _ (Holds cb) owned
        (λ uri end listed test h.
          let whole = (owned_uris-part c.source.id mid.doc_index cb.doc_index uri i.1 listed).0 in
          let (full, met) = unsuppressed enumeration owned mid.seen uri free listed in
          remove-Holds deletion uri cb end
            (λ d known same.
              let there = h.1 uri d known in
              unseen-licensed c cb uri d
                (any_in-part c.source.id cb.seen mid.doc_index cb.doc_index i.1
                  (subst (λ seen. any_in seen owned ≡ true) i.2 met))
                (subst (λ seen. contains uri seen ≡ false) i.2
                  (unseen_of mid.seen mid.gone uri test))
                (owned_uris-mine c.source.id cb.doc_index uri d whole there)
                (subst (λ e. may_remove c e cb uri d ≡ false) full (spared uri d there same)))
            h)
        owned (λ u m. m) mid i

  sweep-Holds :
      (deletion : DeletionPolicy) (enumeration : Enumeration) (cb mid : PipelineCallback W)
      → is_feed c.source.spec ≡ false
      → Spared enumeration cb
      → Holds cb mid
      → Holds cb (sweep s c deletion enumeration mid).0
  unfolding sweep delete_sweep
  sweep-Holds deletion enumeration cb mid plain spared i =
      elim (Option-cases
        (suppressed_because enumeration (owned_uris c.source.id mid.doc_index) mid.seen)) [
          | inr (reason, e) ↦ rw (plain, e) i
          | inl e ↦ rw (plain, e) (unseen-Holds deletion enumeration cb mid spared e i)
        ]

  -- A run over a source that is no feed leaves a document in the store, whatever the store answers,
  -- unless a record of it in the index licenses its removal: the record belongs to the source, and
  -- its URI was confirmed gone, or the ingestor enumerated the source completely, met a document of
  -- it and did not meet that URI. `P` is any property of the world, such as that the store holds the
  -- document `r`, that the deletion of other ids does not touch.
  pub remove_documents-keeps :
      (deletion : DeletionPolicy) (enumeration : Enumeration) (cb : PipelineCallback W)
      → is_feed c.source.spec ≡ false
      → Spared enumeration cb
      → P cb.world
      → P (remove_documents s c deletion enumeration cb).0.world
  unfolding remove_documents after_gone
  remove_documents-keeps deletion enumeration cb plain spared p =
      let i = gone-Holds deletion enumeration cb spared p in after (prune_gone s c deletion cb) i
    where
      after :
          (end : PipelineCallback W × Result Error (Unit {0}))
          → Holds cb end.0
          → P (after_gone s c deletion enumeration end).0.world
      after (mid, err e) h = h.0
      after (mid, ok tt) h = (sweep-Holds deletion enumeration cb mid plain spared h).0
