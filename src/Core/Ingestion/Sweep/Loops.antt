-- ===== src/Core/Ingestion/Sweep/Loops.antt =====
-- The retaining and the pruning loop, side by side.
use mathlib.Core.Path.{subst}
use localdb.Prelude.{
  ℕ, ◌+◌, ◌≡◌, refl, inl, inr, sym, ◌∙◌, ap, List, [], ◌∷◌, Bool, true, false, Text, text_eq,
  text_eq_iff, text_eq_refl, contains, remove, has_key, Unique, remove-Unique, count, length, arith,
  Bool-cases,
}
use localdb.Core.Errors.{ok}
use localdb.Core.Ingestion.Services.{Services}
use localdb.Core.Ingestion.Index.{DocumentIndex, retain, prune}
use localdb.Core.Ingestion.Callback.{Context, PipelineCallback}
use localdb.Core.Ingestion.Liveness.{delete_document, count_deleted}
use localdb.Core.Ingestion.Sweep.{prune_or_count, prune_each}
use localdb.Core.Ingestion.Sweep.Owned.{NoDup, has_key-remove_other, length-remove, has_key-get}
use localdb.Core.Ingestion.Sweep.Frame.{
  delete-frame, prune_or_count-removes, prune_each-went, prune_each-passed,
}

-- A test on the URIs of an index that the removal of another URI does not change.
abbrev pub IsLocal : (DocumentIndex → Text → Bool) → Type 0
IsLocal test =
    (k : Text) (index : DocumentIndex) (u : Text)
    → text_eq k u ≡ false
    → test (remove k index) u ≡ test index u

-- The same test, for each URI of the list.
count-local :
    (test : DocumentIndex → Text → Bool) (k : Text) (index : DocumentIndex) (xs : List Text)
    → IsLocal test
    → contains k xs ≡ false
    → count (test (remove k index)) xs ≡ count (test index) xs
unfolding contains
count-local test k index [] local e = refl
count-local test k index (x ∷ xs) local e = ground (
  arith,
  count-local test k index xs local,
  local k index x,
  text_eq_iff x k,
  text_eq_iff k x,
  Bool-cases (text_eq k x),
)

apart_from :
    (x v : Text) (xs : List Text)
    → contains x xs ≡ false
    → contains v xs ≡ true
    → text_eq x v ≡ false
unfolding contains
apart_from x v xs e m = elim (Bool-cases (text_eq x v)) [
  | inr apart ↦ apart
  | inl same ↦ absurd (clash (subst (λ t. contains t xs ≡ false) ((text_eq_iff x v).0 same) e))
]
  where
    clash : ¬ (contains v xs ≡ false)
    clash f = ground (arith, f, m)

module _ {W : Type 0} (s : Services W) (c : Context) where
  prune_each-none :
      (test : DocumentIndex → Text → Bool) (cb : PipelineCallback W)
      → let end = prune_each s c prune test [] cb in
        (end.1 ≡ ok tt) × (length end.0.doc_index + 0 ≡ length cb.doc_index)
  unfolding prune_each
  prune_each-none test cb = ground arith

  -- A retaining loop counts the URIs that pass, and does nothing else.
  pub prune_each-retain :
      (test : DocumentIndex → Text → Bool) (xs : List Text) (cb : PipelineCallback W)
      → let end = prune_each s c retain test xs cb in
        (end.1 ≡ ok tt)
        × (end.0.doc_index ≡ cb.doc_index)
        × (end.0.seen ≡ cb.seen)
        × (end.0.gone ≡ cb.gone)
        × (end.0.world ≡ cb.world)
        × (end.0.result.docs_prunable ≡ cb.result.docs_prunable + count (test cb.doc_index) xs)
  unfolding prune_each prune_or_count
  prune_each-retain test [] cb = ground arith
  prune_each-retain test (x ∷ xs) cb = ground (
    arith,
    prune_each-retain test xs cb,
    prune_each-retain test xs (prune_or_count s c retain x cb).0,
    Bool-cases (test cb.doc_index x),
  )

  module _ (works : (id : Text) (w : W) → (n : ℕ) × ((s.delete_by_resource id w).1 ≡ ok n)) where
    delete_document-ok :
        (uri id : Text) (cb : PipelineCallback W) → (delete_document s c uri id cb).1 ≡ ok tt
    unfolding delete_document count_deleted
    delete_document-ok uri id cb = let (n, e) = works id cb.world in ground (arith, e)

    -- A pruning loop takes the URIs that pass out of the index.
    pub prune_each-prune :
        (test : DocumentIndex → Text → Bool) (xs : List Text) (cb : PipelineCallback W)
        → IsLocal test
        → NoDup xs
        → Unique cb.doc_index
        → ((u : Text)
            → contains u xs ≡ true
            → test cb.doc_index u ≡ true
            → has_key u cb.doc_index ≡ true)
        → let end = prune_each s c prune test xs cb in
          (end.1 ≡ ok tt)
          × (length end.0.doc_index + count (test cb.doc_index) xs ≡ length cb.doc_index)
    unfolding contains
    prune_each-prune test [] cb local dup u known = prune_each-none test cb
    prune_each-prune test (x ∷ xs) cb local dup u known = elim (Bool-cases (test cb.doc_index x)) [
      | inr f ↦
          let rest =
            prune_each-prune test xs cb local dup.1 u
              (λ v m t. known v (ground (arith, m, Bool-cases (text_eq x v))) t) in
          rw (prune_each-passed s c prune test x xs cb f) (rest.0, ground (arith, rest.1, f))
      | inl t ↦
          let (d, e) = has_key-get x cb.doc_index (known x (ground (arith, text_eq_refl x)) t) in
          let one = prune_or_count-removes s c x cb d e in
          let mid = (prune_or_count s c prune x cb).0 in
          let index : mid.doc_index ≡ remove x cb.doc_index =
            rw one (delete-frame s c x d.resource_id cb).0 in
          let fine : (prune_or_count s c prune x cb).1 ≡ ok tt =
            rw one (delete_document-ok x d.resource_id cb) in
          let rest =
            prune_each-prune test xs mid local dup.1 (rw index (remove-Unique x cb.doc_index u))
              (λ v m p. rw index (
                rw (has_key-remove_other x v cb.doc_index (apart_from x v xs dup.0 m)) (
                  known v (ground (arith, m, Bool-cases (text_eq x v))) (
                    sym (local x cb.doc_index v (apart_from x v xs dup.0 m))
                    ∙ subst (λ i. test i v ≡ true) index p)))) in
          let less = length-remove x cb.doc_index u (known x (ground (arith, text_eq_refl x)) t) in
          let same = count-local test x cb.doc_index xs local dup.0 in
          rw (prune_each-went s c prune test x xs cb t fine) (
            rest.0,
            ground (
              arith,
              rest.1,
              less,
              same,
              index,
              t,
              ap (λ i. count (test i) xs) index,
              ap length index,
            ),
          )
    ]
