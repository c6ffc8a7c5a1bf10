-- ===== src/Core/Ingestion/Sweep/Frame.antt =====
-- What the removals of a run do to the state besides: the index shrinks, and what the run met stays.
use localdb.Prelude.{
  ◌≡◌, refl, sym, inl, inr, none, some, List, [], ◌∷◌, Bool, true, false, Text, text_eq,
  text_eq_iff, text_eq_refl, ◌∙◌, contains, lookup-remove, remove, arith, Bool-cases, Option-cases,
}
use mathlib.Core.Path.{subst}
use localdb.Core.Errors.{Error, Result, ok, err, Result-cases}
use localdb.Core.Ingestion.Services.{Services}
use localdb.Core.Ingestion.Index.{
  DocumentIndex, DocumentRecord, DeletionPolicy, retain, prune, get, uris,
}
use localdb.Core.Ingestion.Callback.{Context, PipelineCallback}
use localdb.Core.Ingestion.Liveness.{count_deleted, delete_document}
use localdb.Core.Ingestion.Sweep.{owned_by, prune_or_count, prune_each}

pub owned_by-record :
    (source_id : Text) (index : DocumentIndex) (uri : Text) (d : DocumentRecord)
    → get uri index ≡ some d
    → owned_by source_id index uri ≡ text_eq d.source_id source_id
unfolding owned_by
owned_by-record source_id index uri d e = rw (e, owned_by) refl

pub owned_by-get :
    (source_id : Text) (index : DocumentIndex) (uri : Text)
    → owned_by source_id index uri ≡ true
    → (d : DocumentRecord) × (get uri index ≡ some d) × (text_eq d.source_id source_id ≡ true)
unfolding owned_by
owned_by-get source_id index uri o = elim (Option-cases (get uri index)) [
  | inl new ↦ absurd (ground (arith, new, o))
  | inr (d, e) ↦ (d, e, sym (owned_by-record source_id index uri d e) ∙ o)
]

-- The first index holds nothing that the second does not.
abbrev pub IsPart : DocumentIndex → DocumentIndex → Type 0
IsPart index whole =
    (uri : Text) (d : DocumentRecord) → get uri index ≡ some d → get uri whole ≡ some d

pub remove-IsPart :
    (k : Text) (index whole : DocumentIndex) → IsPart index whole → IsPart (remove k index) whole
remove-IsPart k index whole part uri d e = part uri d (ground (arith, lookup-remove k uri index))

module _ {W : Type 0} (s : Services W) (c : Context) where
  pub delete-frame :
      (uri id : Text) (cb : PipelineCallback W)
      → let end = (delete_document s c uri id cb).0 in
        (end.doc_index ≡ remove uri cb.doc_index)
        × (end.seen ≡ cb.seen)
        × (end.gone ≡ cb.gone)
        × (end.world ≡ (s.delete_by_resource id cb.world).0)
  unfolding delete_document count_deleted
  delete-frame uri id cb = ground arith

  pub prune_or_count-removes :
      (uri : Text) (cb : PipelineCallback W) (d : DocumentRecord)
      → get uri cb.doc_index ≡ some d
      → prune_or_count s c prune uri cb ≡ delete_document s c uri d.resource_id cb
  unfolding prune_or_count
  prune_or_count-removes uri cb d e = rw (e, prune_or_count) refl

  pub prune_or_count-unknown :
      (uri : Text) (cb : PipelineCallback W)
      → get uri cb.doc_index ≡ none
      → prune_or_count s c prune uri cb ≡ (cb, ok tt)
  unfolding prune_or_count
  prune_or_count-unknown uri cb e = rw (e, prune_or_count) refl

  pub prune_or_count-frame :
      (deletion : DeletionPolicy) (uri : Text) (cb : PipelineCallback W)
      → let end = (prune_or_count s c deletion uri cb).0 in
        IsPart end.doc_index cb.doc_index × (end.seen ≡ cb.seen) × (end.gone ≡ cb.gone)
  unfolding prune_or_count
  prune_or_count-frame retain uri cb = (λ u d e. e, refl, refl)
  prune_or_count-frame prune uri cb = elim (Option-cases (get uri cb.doc_index)) [
    | inl new ↦ rw (prune_or_count-unknown uri cb new) (λ u d e. e, refl, refl)
    | inr (d, known) ↦
        let frame = delete-frame uri d.resource_id cb in
        rw (prune_or_count-removes uri cb d known) (
          subst (λ index. IsPart index cb.doc_index) (sym frame.0)
              (remove-IsPart uri cb.doc_index cb.doc_index (λ u d e. e)),
          frame.1,
          frame.2,
        )
  ]

  pub prune_each-passed :
      (deletion : DeletionPolicy) (test : DocumentIndex → Text → Bool) (uri : Text)
      (rest : List Text) (cb : PipelineCallback W)
      → test cb.doc_index uri ≡ false
      → prune_each s c deletion test (uri ∷ rest) cb ≡ prune_each s c deletion test rest cb
  unfolding prune_each
  prune_each-passed deletion test uri rest cb e = rw (e, prune_each) refl

  prune_each-failed :
      (deletion : DeletionPolicy) (test : DocumentIndex → Text → Bool) (uri : Text)
      (rest : List Text) (cb : PipelineCallback W) (e : Error)
      → test cb.doc_index uri ≡ true
      → (prune_or_count s c deletion uri cb).1 ≡ err e
      → prune_each s c deletion test (uri ∷ rest) cb
        ≡ ((prune_or_count s c deletion uri cb).0, err e)
  unfolding prune_each
  prune_each-failed deletion test uri rest cb e t a = ground arith

  pub prune_each-went :
      (deletion : DeletionPolicy) (test : DocumentIndex → Text → Bool) (uri : Text)
      (rest : List Text) (cb : PipelineCallback W)
      → test cb.doc_index uri ≡ true
      → (prune_or_count s c deletion uri cb).1 ≡ ok tt
      → prune_each s c deletion test (uri ∷ rest) cb
        ≡ prune_each s c deletion test rest (prune_or_count s c deletion uri cb).0
  unfolding prune_each
  prune_each-went deletion test uri rest cb t a = ground arith

  -- What each removal keeps, the loop keeps.
  pub prune_each-keeps :
      (deletion : DeletionPolicy) (test : DocumentIndex → Text → Bool)
      (I : PipelineCallback W → Type 0) (all : List Text)
      → ((uri : Text) (cb : PipelineCallback W)
          → contains uri all ≡ true
          → test cb.doc_index uri ≡ true
          → I cb
          → I (prune_or_count s c deletion uri cb).0)
      → (uris : List Text) → ((uri : Text) → contains uri uris ≡ true → contains uri all ≡ true)
      → (cb : PipelineCallback W) → I cb
      → I (prune_each s c deletion test uris cb).0
  unfolding contains prune_each
  prune_each-keeps deletion test I all step [] sub cb i = i
  prune_each-keeps deletion test I all step (uri ∷ rest) sub cb i =
      let sub' : (u : Text) → contains u rest ≡ true → contains u all ≡ true =
        λ u m. sub u (ground (arith, text_eq_iff uri u)) in
      let here = sub uri (ground (arith, text_eq_refl uri)) in
      elim (Bool-cases (test cb.doc_index uri)) [
        | inr f ↦
            subst (λ (e : PipelineCallback W × Result Error (Unit {0})). I e.0)
              (sym (prune_each-passed deletion test uri rest cb f))
              (prune_each-keeps deletion test I all step rest sub' cb i)
        | inl t ↦ elim (Result-cases (prune_or_count s c deletion uri cb).1) [
          | inl (e, a) ↦
              subst (λ (e : PipelineCallback W × Result Error (Unit {0})). I e.0)
                (sym (prune_each-failed deletion test uri rest cb e t a)) (step uri cb here t i)
          | inr (tt, a) ↦
              subst (λ (e : PipelineCallback W × Result Error (Unit {0})). I e.0)
                (sym (prune_each-went deletion test uri rest cb t a))
                (prune_each-keeps deletion test I all step rest sub'
                  (prune_or_count s c deletion uri cb).0 (step uri cb here t i))
        ]
      ]

  pub prune_each-frame :
      (deletion : DeletionPolicy) (test : DocumentIndex → Text → Bool) (uris : List Text)
      (cb : PipelineCallback W)
      → let end = (prune_each s c deletion test uris cb).0 in
        IsPart end.doc_index cb.doc_index × (end.seen ≡ cb.seen) × (end.gone ≡ cb.gone)
  prune_each-frame deletion test uris cb =
      prune_each-keeps deletion test
        (λ end. IsPart end.doc_index cb.doc_index × (end.seen ≡ cb.seen) × (end.gone ≡ cb.gone))
        uris
        (λ uri mid m t i.
          let one = prune_or_count-frame deletion uri mid in
          (λ u d e. i.0 u d (one.0 u d e), one.1 ∙ i.1, one.2 ∙ i.2))
        uris (λ u m. m) cb (λ u d e. e, refl, refl)
