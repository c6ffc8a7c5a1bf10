-- ===== src/Core/Search/Query/Answers.antt =====
-- What a query answers: how many citations, and of which chunks.
use localdb.Prelude.{
  ℕ, min, ◌≡◌, ◌∙◌, ap, some, List, [], ◌∷◌, true, arith, Text, lookup, length, length-take,
  length-map, take, All, All-imp, All-map, All-take, unwrap_or,
}
use localdb.Core.Errors.{Error, Result, ok, err}
use localdb.Core.Store.{ChunkRecord}
use localdb.Core.Citation.{Citation}
use localdb.Core.Search.{Floats, FusedChunkEntry, default_leg_k, default_top_n}
use localdb.Core.Search.Query.{
  StoreHandle, QueryRequest, QueryResponse, Embed, Pools, no_pools, shape_citation, fan_out, cite,
  shape, respond, answer_pools, with_vector, embed_query, query,
}
use localdb.Core.Search.Query.Citations.{Names, Held, fused-Held}
use localdb.Core.Search.Query.Provenance.{Gives, known, Honest, Fine, fan_out-Fine}

module _ {W : Type 0} (P : ChunkRecord → Type 0) where
  -- A citation of a chunk with the property, under an id and a name of one of the stores.
  abbrev pub Cited : List (StoreHandle W) → Citation → Type 0
  Cited stores citation =
      (entry : FusedChunkEntry) × (name : Text) × (citation
        ≡ shape_citation entry entry.chunk.store_id name)
      × (known stores entry.chunk.store_id name ≡ true)
      × P entry.chunk

  cite-Cited :
      (all : List (StoreHandle W)) (names : Names) (entry : FusedChunkEntry)
      → ((id name : Text) → lookup id names ≡ some name → known all id name ≡ true)
      → Held P names entry.chunk
      → Cited all (cite names entry)
  unfolding cite
  cite-Cited all names entry listed h = (
    entry,
    h.0.0,
    ap (λ o. shape_citation entry entry.chunk.store_id (unwrap_or o [])) h.0.1,
    listed entry.chunk.store_id h.0.0 h.0.1,
    h.1,
  )

  -- What holds of a response: its citations are cited, and they are the first of the candidates.
  abbrev pub Answer : List (StoreHandle W) → ℕ → QueryResponse → Type 0
  Answer stores top_n response =
      All (Cited stores) response.citations
      × (length response.citations ≡ min top_n response.total_candidates)

  shape-Answer :
      (all : List (StoreHandle W)) (top_n : ℕ) (names : Names) (es : List FusedChunkEntry)
      → ((id name : Text) → lookup id names ≡ some name → known all id name ≡ true)
      → All (λ e. Held P names e.chunk) es
      → Answer all top_n (shape top_n names es)
  unfolding shape
  shape-Answer all top_n names [] listed a = (tt, omega arith)
  shape-Answer all top_n names (e ∷ es) listed a =
      let shown = take top_n (e ∷ es) in
      (
        All-map (Cited all) (cite names) shown (
            All-imp _ _ shown (λ entry h. cite-Cited all names entry listed h)
              (All-take _ top_n (e ∷ es) a)),
        length-map (cite names) shown ∙ length-take top_n (e ∷ es),
      )

  respond-Answer :
      (f : Floats) (all : List (StoreHandle W)) (top_n : ℕ) (pools : Pools)
      → Fine P all pools
      → Answer all top_n (respond f top_n pools)
  unfolding respond
  respond-Answer f all top_n pools fine =
      shape-Answer all top_n pools.names _ fine.2
        (fused-Held P f pools.names pools.dense pools.bm25 fine.0 fine.1)

  -- A successful query cites at most `top_n` of its candidates, or the default number, and all of
  -- them if they are fewer. Each citation is of a chunk that a leg of one of the queried stores gave,
  -- and names that chunk's own store, by the id and by a name under which that store was queried:
  -- never by the fallback for a missing name. `P` is any property that every chunk has which a leg
  -- gives for these filters, such as that the chunk matches them.
  pub query-Answer :
      (f : Floats) (stores : List (StoreHandle W)) (embed : Embed W) (request : QueryRequest)
      (w : W)
      → All (Honest P request.filters) stores
      → Gives
          (Answer stores (unwrap_or request.top_n default_top_n))
          (query f stores embed request w)
  unfolding query with_vector answer_pools
  query-Answer f [] embed request w honest = (tt, omega arith)
  query-Answer f (handle ∷ rest) embed request w honest =
      with_query (embed_query embed request.query w)
    where
      stores : List (StoreHandle W)
      stores = handle ∷ rest

      top_n : ℕ
      top_n = unwrap_or request.top_n default_top_n

      after_pools :
          (ran : W × Result Error Pools)
          → Gives (Fine P stores) ran
          → Gives (Answer stores top_n) (answer_pools f top_n ran)
      after_pools (w, err e) g = tt
      after_pools (w, ok pools) g = respond-Answer f stores top_n pools g

      with_query :
          (ran : W × Result Error (List ℕ))
          → Gives (Answer stores top_n) (with_vector f stores request ran)
      with_query (w, err e) = tt
      with_query (w, ok vector) =
          after_pools
            (fan_out request vector (unwrap_or request.leg_k default_leg_k) stores no_pools w)
            (fan_out-Fine P stores request vector (unwrap_or request.leg_k default_leg_k) stores
              no_pools w (λ id name e. e) honest (tt, tt, λ id name e. ground (arith, e)))
