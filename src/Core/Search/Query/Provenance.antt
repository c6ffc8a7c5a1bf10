-- ===== src/Core/Search/Query/Provenance.antt =====
-- Where the citations of a query come from.
use mathlib.Core.Path.{subst}
use localdb.Prelude.{
  ℕ, ◌≡◌, ◌⊎◌, inl, inr, ap, some, List, [], ◌∷◌, ◌++◌, Bool, true, false, arith, ◌&&◌, ◌||◌, Text,
  text_eq, text_eq_iff, text_eq_refl, lookup, insert, lookup-insert, All, All-imp, All-append,
  All-kept, Bool-cases,
}
use localdb.Core.Errors.{Error, Result, ok, err, Result-cases}
use localdb.Core.Store.{ChunkRecord, SearchResult}
use localdb.Core.Dates.Filters.{MetadataFilter}
use localdb.Core.Search.Query.{
  StoreHandle, QueryRequest, Pools, retain_own_chunks, search_store, after_dense, both_legs, extend,
  fan_out,
}
use localdb.Core.Search.Query.Citations.{Held, Held-insert, Held-own}

-- One of the stores has the id, and has it under the name.
unfoldable pub known : {W : Type 0} → List (StoreHandle W) → Text → Text → Bool
unfolding text_eq
known [] id name = false
known (handle ∷ stores) id name =
    (text_eq handle.id id && text_eq handle.name name) || known stores id name

-- What an answer gives, if it is not an error.
abbrev pub Gives : {W A : Type 0} → (A → Type 0) → W × Result Error A → Type 0
Gives Q (w, err e) = Unit
Gives Q (w, ok a) = Q a

module _ (P : ChunkRecord → Type 0) where
  abbrev pub Found : SearchResult → Type 0
  Found r = P r.chunk

  abbrev BothFound : List SearchResult × List SearchResult → Type 0
  BothFound legs = All Found legs.0 × All Found legs.1

module _ {W : Type 0} (P : ChunkRecord → Type 0) where
  -- Both legs of a store give chunks with the property, whatever the vector, the text and the depth.
  abbrev pub Honest : List MetadataFilter → StoreHandle W → Type 0
  Honest filters handle =
      ((vector : List ℕ) (k : ℕ) (w : W)
        → Gives (All (Found P)) (handle.dense_search vector k filters w))
      × ((text : Text) (k : ℕ) (w : W)
          → Gives (All (Found P)) (handle.bm25_search text k filters w))

  search_store-Found :
      (filters : List MetadataFilter) (handle : StoreHandle W) (vector : List ℕ) (text : Text)
      (k : ℕ) (w : W)
      → Honest filters handle
      → Gives (BothFound P) (search_store handle vector text k filters w)
  unfolding search_store after_dense both_legs
  search_store-Found filters handle vector text k w honest =
      after (handle.dense_search vector k filters w) (honest.0 vector k w)
    where
      both :
          (dense : List SearchResult) (ran : W × Result Error (List SearchResult))
          → All (Found P) dense
          → Gives (All (Found P)) ran
          → Gives (BothFound P) (both_legs dense ran)
      both dense (w, err e) a g = tt
      both dense (w, ok bm25) a g = (a, g)

      after :
          (ran : W × Result Error (List SearchResult))
          → Gives (All (Found P)) ran
          → Gives (BothFound P) (after_dense handle text k filters ran)
      after (w, err e) g = tt
      after (w, ok dense) g = both dense (handle.bm25_search text k filters w) g (honest.1 text k w)

  -- The pools hold chunks of which a store's name is known, and the names are the stores'.
  abbrev pub Fine : List (StoreHandle W) → Pools → Type 0
  Fine all pools =
      All (λ r. Held P pools.names r.chunk) pools.dense
      × All (λ r. Held P pools.names r.chunk) pools.bm25
      × ((id name : Text) → lookup id pools.names ≡ some name → known all id name ≡ true)

  extend-Fine :
      (all : List (StoreHandle W)) (handle : StoreHandle W)
      (legs : List SearchResult × List SearchResult) (pools : Pools)
      → known all handle.id handle.name ≡ true
      → BothFound P legs
      → Fine all pools
      → Fine all (extend handle legs pools)
  unfolding extend retain_own_chunks
  extend-Fine all handle (dense, bm25) pools listed found fine = (
    added pools.dense dense fine.0 found.0,
    added pools.bm25 bm25 fine.1 found.1,
    λ id name e. names_known id name (Bool-cases (text_eq handle.id id)) e,
  )
    where
      added :
          (old new : List SearchResult)
          → All (λ r. Held P pools.names r.chunk) old
          → All (Found P) new
          → All
              (λ r. Held P (insert handle.id handle.name pools.names) r.chunk)
              (old ++ retain_own_chunks new handle)
      added old new a b =
          All-append _ old (retain_own_chunks new handle)
            (All-imp _ _ old (Held-insert P handle.id handle.name pools.names) a)
            (All-imp _ _ (retain_own_chunks new handle)
              (Held-own P handle.id handle.name pools.names)
              (All-kept (Found P) (λ (r : SearchResult). text_eq r.chunk.store_id handle.id) new b))

      names_known :
          (id name : Text)
          → (text_eq handle.id id ≡ true) ⊎ (text_eq handle.id id ≡ false)
          → lookup id (insert handle.id handle.name pools.names) ≡ some name
          → known all id name ≡ true
      names_known id name (inl same) e = ground (
        arith,
        listed,
        text_eq_iff handle.id id,
        lookup-insert handle.id id handle.name pools.names,
      )
      names_known id name (inr other) e =
          fine.2 id name (ground (arith, lookup-insert handle.id id handle.name pools.names))

  known-suffix :
      (all rest : List (StoreHandle W)) (handle : StoreHandle W)
      → ((id name : Text) → known (handle ∷ rest) id name ≡ true → known all id name ≡ true)
      → known all handle.id handle.name ≡ true
  unfolding known
  known-suffix all rest handle part =
      part handle.id handle.name (ground (arith, text_eq_refl handle.id, text_eq_refl handle.name))

  known-rest :
      (all rest : List (StoreHandle W)) (handle : StoreHandle W)
      → ((id name : Text) → known (handle ∷ rest) id name ≡ true → known all id name ≡ true)
      → (id name : Text) → known rest id name ≡ true
      → known all id name ≡ true
  unfolding known
  known-rest all rest handle part id name e = part id name (ground (arith, e))

  pub fan_out-Fine :
      (all : List (StoreHandle W)) (request : QueryRequest) (vector : List ℕ) (k : ℕ)
      (stores : List (StoreHandle W)) (pools : Pools) (w : W)
      → ((id name : Text) → known stores id name ≡ true → known all id name ≡ true)
      → All (Honest request.filters) stores
      → Fine all pools
      → Gives (Fine all) (fan_out request vector k stores pools w)
  unfolding fan_out
  fan_out-Fine all request vector k [] pools w part honest fine = fine
  fan_out-Fine all request vector k (handle ∷ rest) pools w part honest fine =
      let ran = search_store handle vector request.query k request.filters w in
      let found = search_store-Found request.filters handle vector request.query k w honest.0 in
      elim (Result-cases ran.1) [
        | inl (e, failed) ↦ rw (failed, fan_out) tt
        | inr (legs, done) ↦
            rw (done, fan_out)
              (fan_out-Fine all request vector k rest (extend handle legs pools) ran.0
                (known-rest all rest handle part) honest.1
                (extend-Fine all handle legs pools (known-suffix all rest handle part)
                  (given ran legs done found) fine))
      ]
    where
      given :
          (ran : W × Result Error (List SearchResult × List SearchResult))
          (legs : List SearchResult × List SearchResult)
          → ran.1 ≡ ok legs
          → Gives (BothFound P) ran
          → BothFound P legs
      given (w, err e) legs done g = ground (arith, done)
      given (w, ok found) legs done g = subst (Gives (BothFound P)) (ap (λ r. (w, r)) done) g
