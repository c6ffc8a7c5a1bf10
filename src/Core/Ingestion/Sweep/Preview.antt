-- ===== src/Core/Ingestion/Sweep/Preview.antt =====
-- The count of prunable documents of a retaining run, against a pruning run.
use mathlib.Core.Path.{subst}
use localdb.Prelude.{
  ℕ, ◌+◌, ◌≡◌, refl, inl, inr, ◌∙◌, ◌⊎◌, none, some, List, [], ◌∷◌, Bool, true, false, not, ◌||◌,
  ◌&&◌, Text, contains, has_key, Unique, remove-Unique, count, length, arith, Bool-cases,
  Option-cases, if◌then◌else◌,
}
use localdb.Core.Errors.{Error, Result, ok, err}
use localdb.Core.Resource.{is_feed}
use localdb.Core.Ingestion.Services.{Services}
use localdb.Core.Ingestion.Index.{DocumentIndex, DeletionPolicy, retain, prune, get}
use localdb.Core.Ingestion.Callback.{Context, PipelineCallback}
use localdb.Core.Ingestion.Sweep.{
  Enumeration, complete, incomplete, SweepSuppression, incomplete_enumeration, zero_seen,
  is_complete, owned_by, any_in, suppressed_because, prune_or_count, prune_gone, owned_uris,
  prune_unseen, delete_sweep, sweep, after_gone, remove_documents,
}
use localdb.Core.Ingestion.Sweep.Owned.{
  NoDup, owned_by-remove, owned_entries, owned_uris-entries, owned_entries-remove, count-delete,
  any_in-delete, owned_entries-known, owned_entries-NoDup, get-has_key,
}
use localdb.Core.Ingestion.Sweep.Frame.{
  delete-frame, prune_or_count-removes, prune_or_count-unknown, prune_each-keeps, prune_each-frame,
  owned_by-get,
}
use localdb.Core.Ingestion.Sweep.Loops.{prune_each-retain, prune_each-prune}

-- The test of the sweep.
abbrev is_unmet : List Text → List Text → Text → Bool
is_unmet seen gone uri = not (contains uri seen || contains uri gone)

-- How many documents the sweep finds absent.
swept : Enumeration → List Text → List Text → List Text → ℕ
unfolding any_in
swept enumeration seen gone owned =
    if is_complete enumeration && any_in seen owned then count (is_unmet seen gone) owned else 0

suppressed-swept :
    (enumeration : Enumeration) (seen gone owned : List Text)
    → ((suppressed_because enumeration owned seen ≡ none)
        × (swept enumeration seen gone owned ≡ count (is_unmet seen gone) owned))
      ⊎ ((reason : SweepSuppression) × (suppressed_because enumeration owned seen ≡ some reason)
          × (swept enumeration seen gone owned ≡ 0))
unfolding suppressed_because swept
suppressed-swept complete seen gone [] = ground arith
suppressed-swept complete seen gone (x ∷ owned) = elim (Bool-cases (any_in seen (x ∷ owned))) [
  | inl met ↦ inl (ground (arith, met), ground (arith, met))
  | inr new ↦ inr (zero_seen, ground (arith, new), ground (arith, new))
]
suppressed-swept (incomplete reason) seen gone owned =
    inr (incomplete_enumeration reason, refl, refl)

has_key_owned :
    (sid : Text) (index : DocumentIndex) (u : Text)
    → owned_by sid index u ≡ true
    → has_key u index ≡ true
has_key_owned sid index u o =
    let (d, known, mine) = owned_by-get sid index u o in get-has_key u index d known

module _ {W : Type 0} (s : Services W) (c : Context) where
  sweep-retain :
      (enumeration : Enumeration) (cb : PipelineCallback W)
      → is_feed c.source.spec ≡ false
      → ((sweep s c retain enumeration cb).0.doc_index ≡ cb.doc_index)
        × ((sweep s c retain enumeration cb).0.result.docs_prunable
            ≡ cb.result.docs_prunable
              + swept enumeration cb.seen cb.gone (owned_uris c.source.id cb.doc_index))
  unfolding sweep delete_sweep prune_unseen
  sweep-retain enumeration cb plain =
      let owned = owned_uris c.source.id cb.doc_index in
      elim (suppressed-swept enumeration cb.seen cb.gone owned) [
        | inl (free, n) ↦
            let loop = prune_each-retain s c (λ i u. is_unmet cb.seen cb.gone u) owned cb in
            rw (plain, free) (rw n (loop.1, loop.5))
        | inr (reason, stopped, n) ↦ rw (plain, stopped) (rw n (refl, omega arith))
      ]

  after_gone-ok :
      (deletion : DeletionPolicy) (enumeration : Enumeration)
      (end : PipelineCallback W × Result Error (Unit {0}))
      → end.1 ≡ ok tt
      → after_gone s c deletion enumeration end ≡ sweep s c deletion enumeration end.0
  unfolding after_gone
  after_gone-ok deletion enumeration (cb, ok tt) e = refl
  after_gone-ok deletion enumeration (cb, err e') e = ground (arith, e)

  module _ (works : (id : Text) (w : W) → (n : ℕ) × ((s.delete_by_resource id w).1 ≡ ok n)) where
    sweep-prune :
        (enumeration : Enumeration) (cb : PipelineCallback W)
        → is_feed c.source.spec ≡ false
        → Unique cb.doc_index
        → ((sweep s c prune enumeration cb).1 ≡ ok tt)
          × (length (sweep s c prune enumeration cb).0.doc_index
                + swept enumeration cb.seen cb.gone (owned_uris c.source.id cb.doc_index)
              ≡ length cb.doc_index)
    unfolding sweep delete_sweep prune_unseen
    sweep-prune enumeration cb plain u =
        let owned = owned_uris c.source.id cb.doc_index in
        let entries = owned_uris-entries c.source.id cb.doc_index u in
        elim (suppressed-swept enumeration cb.seen cb.gone owned) [
          | inl (free, n) ↦
              rw (plain, free)
                (rw n (
                  prune_each-prune s c works (λ i u. is_unmet cb.seen cb.gone u) owned cb
                    (λ k i u e. refl) (rw entries (owned_entries-NoDup c.source.id cb.doc_index u))
                    u
                    (λ v m t.
                      owned_entries-known c.source.id v cb.doc_index
                        (subst (λ l. contains v l ≡ true) entries m))))
          | inr (reason, stopped, n) ↦ rw (plain, stopped) (rw n (refl, omega arith))
        ]

    -- What the loop over the confirmed URIs leaves for the sweep.
    Leaves : PipelineCallback W → PipelineCallback W → Type 0
    Leaves cb end =
        Unique end.doc_index
        × (count (is_unmet cb.seen cb.gone) (owned_entries c.source.id end.doc_index)
            ≡ count (is_unmet cb.seen cb.gone) (owned_entries c.source.id cb.doc_index))
        × (any_in cb.seen (owned_entries c.source.id end.doc_index)
            ≡ any_in cb.seen (owned_entries c.source.id cb.doc_index))

    remove-Leaves :
        (uri : Text) (cb mid : PipelineCallback W)
        → contains uri cb.gone ≡ true
        → contains uri cb.seen ≡ false
        → Leaves cb mid
        → Leaves cb (prune_or_count s c prune uri mid).0
    unfolding Leaves
    remove-Leaves uri cb mid listed new i = elim (Option-cases (get uri mid.doc_index)) [
      | inl none' ↦ rw (prune_or_count-unknown s c uri mid none') i
      | inr (d, known) ↦
          let index = delete-frame s c uri d.resource_id mid in
          let rest = owned_entries-remove c.source.id uri mid.doc_index in
          rw (prune_or_count-removes s c uri mid d known) (
            rw index.0 (
              remove-Unique uri mid.doc_index i.0,
              rw rest (
                  count-delete (is_unmet cb.seen cb.gone) uri
                    (owned_entries c.source.id mid.doc_index) (ground (arith, listed, new))
                  ∙ i.1),
              rw rest
                  (any_in-delete cb.seen uri (owned_entries c.source.id mid.doc_index) new ∙ i.2),
            ))
    ]

    gone-Leaves :
        (cb : PipelineCallback W)
        → Unique cb.doc_index
        → ((uri : Text) → contains uri cb.gone ≡ true → contains uri cb.seen ≡ false)
        → Leaves cb (prune_gone s c prune cb).0
    unfolding prune_gone Leaves
    gone-Leaves cb u apart =
        prune_each-keeps s c prune (owned_by c.source.id) (Leaves cb) cb.gone
          (λ uri mid listed owned i. remove-Leaves uri cb mid listed (apart uri listed) i) cb.gone
          (λ u m. m) cb (u, refl, refl)

    Unique-gone :
        (cb : PipelineCallback W)
        → Unique cb.doc_index
        → ((uri : Text) → contains uri cb.gone ≡ true → contains uri cb.seen ≡ false)
        → Unique (prune_gone s c prune cb).0.doc_index
    unfolding Leaves
    Unique-gone cb u apart = (gone-Leaves cb u apart).0

    gone-frame :
        (cb : PipelineCallback W)
        → ((prune_gone s c prune cb).0.seen ≡ cb.seen)
          × ((prune_gone s c prune cb).0.gone ≡ cb.gone)
    unfolding prune_gone
    gone-frame cb =
        let frame = prune_each-frame s c prune (owned_by c.source.id) cb.gone cb in
        (frame.1, frame.2)

    swept-Leaves :
        (enumeration : Enumeration) (cb : PipelineCallback W)
        → Unique cb.doc_index
        → ((uri : Text) → contains uri cb.gone ≡ true → contains uri cb.seen ≡ false)
        → let mid = (prune_gone s c prune cb).0 in
          swept enumeration mid.seen mid.gone (owned_uris c.source.id mid.doc_index)
          ≡ swept enumeration cb.seen cb.gone (owned_uris c.source.id cb.doc_index)
    unfolding swept Leaves
    swept-Leaves enumeration cb u apart =
        let mid = (prune_gone s c prune cb).0 in
        let leaves = gone-Leaves cb u apart in
        let frame = gone-frame cb in
        rw (frame.0, frame.1)
          (rw (owned_uris-entries c.source.id cb.doc_index u) (
            rw (owned_uris-entries c.source.id mid.doc_index leaves.0)
              (rw (leaves.1, leaves.2) refl)))

  -- A run under `--delete` over a source that is no feed takes exactly as many documents out of the
  -- index as the same run without it reports as prunable, and ends without an error. This holds if
  -- the store answers every deletion, the index has one record for each URI, no URI was confirmed
  -- gone twice, and none of them was met in the same run.
  pub remove_documents-preview :
      (works : (id : Text) (w : W) → (n : ℕ) × ((s.delete_by_resource id w).1 ≡ ok n))
      (enumeration : Enumeration) (cb : PipelineCallback W)
      → is_feed c.source.spec ≡ false
      → Unique cb.doc_index
      → NoDup cb.gone
      → ((uri : Text) → contains uri cb.gone ≡ true → contains uri cb.seen ≡ false)
      → let pruned = remove_documents s c prune enumeration cb in
        let retained = remove_documents s c retain enumeration cb in
        (pruned.1 ≡ ok tt)
        × (retained.0.doc_index ≡ cb.doc_index)
        × (length pruned.0.doc_index + retained.0.result.docs_prunable
            ≡ length cb.doc_index + cb.result.docs_prunable)
  unfolding remove_documents prune_gone
  remove_documents-preview works enumeration cb plain u dup apart =
      let owned = owned_by c.source.id in
      let kept = prune_each-retain s c owned cb.gone cb in
      let removed =
        prune_each-prune s c works owned cb.gone cb (owned_by-remove c.source.id) dup u
          (λ v m t. has_key_owned c.source.id cb.doc_index v t) in
      let mid = (prune_gone s c prune cb).0 in
      let rest = sweep-prune works enumeration mid plain (Unique-gone works cb u apart) in
      let counted = sweep-retain enumeration (prune_gone s c retain cb).0 plain in
      let same = swept-Leaves works enumeration cb u apart in
      let back = (prune_gone s c retain cb).0 in
      let alike : swept enumeration back.seen back.gone (owned_uris c.source.id back.doc_index)
          ≡ swept enumeration cb.seen cb.gone (owned_uris c.source.id cb.doc_index) =
        rw (kept.1, kept.2, kept.3) refl in
      rw (after_gone-ok prune enumeration (prune_gone s c prune cb) removed.0) (
        rw (after_gone-ok retain enumeration (prune_gone s c retain cb) kept.0) (
          rest.0,
          counted.0 ∙ kept.1,
          omega (arith, rest.1, same, alike, counted.1, removed.1, kept.5),
        ))
