-- ===== src/Core/Search/Query.antt =====
-- `SearchOrchestrator::query` of core/src/search.rs with its helpers: the fan-out over the stores, the
-- fusion and the citations. The stores and the embedder are effects on the state of a world. The
-- `debug_assert!` on foreign chunks is that of a debug build and is left out: the code after it
-- drops them.
pub mod Citations
pub mod Provenance
pub mod Answers
use localdb.Prelude.{
  ℕ, ◌+◌, Option, none, some, List, [], ◌∷◌, ◌++◌, map, Bool, Text, text_eq, lookup, insert, length,
  take, keep, unwrap_or, if◌then◌else◌,
}
use localdb.Core.Errors.{Error, Result, ok, err}
use localdb.Core.Metadata.{title}
use localdb.Core.Store.{ChunkRecord, SearchResult}
use localdb.Core.Dates.Filters.{MetadataFilter}
use localdb.Core.Citation.{Citation}
use localdb.Core.Ingestion.Services.{Io, DocumentChunks}
use localdb.Core.Search.{
  Floats, rrf_k, FusedChunkEntry, default_leg_k, default_top_n, rrf_fuse_global, pool_leg_results,
}

pub record StoreHandle (W : Type 0) : Type 0 where
  pub id : Text
  pub name : Text
  pub dense_search : List ℕ → ℕ → List MetadataFilter → Io W (Result Error (List SearchResult))
  pub bm25_search : Text → ℕ → List MetadataFilter → Io W (Result Error (List SearchResult))

pub record QueryRequest : Type 0 where
  pub query : Text
  pub leg_k : Option ℕ
  pub top_n : Option ℕ
  pub filters : List MetadataFilter

pub record QueryResponse : Type 0 where
  pub citations : List Citation
  pub total_candidates : ℕ

abbrev Embed : Type 0 → Type 0
Embed W = List DocumentChunks → Io W (Result Error (List (List (List ℕ))))

abbrev pub rerank_noop : List FusedChunkEntry → List FusedChunkEntry
rerank_noop results = results

abbrev pub shape_citation : FusedChunkEntry → Text → Text → Citation
shape_citation fused store_id store_name = record {
  chunk_id = fused.chunk.id;
  resource_id = fused.chunk.resource_id;
  store = record { id = store_id; name = store_name };
  uri = fused.chunk.uri;
  title = title fused.chunk.metadata;
  heading_path = fused.chunk.heading_path;
  block = record {
    seq = fused.chunk.block_seq;
    kind = fused.chunk.block_kind;
    page = fused.chunk.page;
  };
  chunk_position = record { seq_in_block = fused.chunk.seq_in_block };
  location = record {
    span = record { start = fused.chunk.span.start; end = fused.chunk.span.end };
    window_block_seqs = fused.chunk.window_block_seqs;
  };
  snippet = fused.chunk.text;
  score = record { fused = fused.fused_score; dense = fused.dense_score; bm25 = fused.bm25_score };
  provenance = record {
    fetched_at = fused.chunk.fetched_at;
    content_hash = fused.chunk.content_hash;
  };
  metadata = fused.chunk.metadata;
}

-- `.next().and_then(|d| d.into_iter().next()).unwrap_or_default()`.
first_vector : List (List (List ℕ)) → List ℕ
first_vector [] = []
first_vector ([] ∷ docs) = []
first_vector ((v ∷ vectors) ∷ docs) = v

-- The two pools and the names of the stores.
pub record Pools : Type 0 where
  pub dense : List SearchResult
  pub bm25 : List SearchResult
  pub names : List (Text × Text)

abbrev no_pools : Pools
no_pools = record { dense = []; bm25 = []; names = [] }

unfoldable pub cite : List (Text × Text) → FusedChunkEntry → Citation
unfolding lookup
cite names entry =
    shape_citation entry entry.chunk.store_id (unwrap_or (lookup entry.chunk.store_id names) [])

module _ {W : Type 0} where
  unfoldable pub retain_own_chunks : List SearchResult → StoreHandle W → List SearchResult
  unfolding text_eq
  retain_own_chunks results handle =
      keep (λ (r : SearchResult). text_eq r.chunk.store_id handle.id) results

  embedded_query : W × Result Error (List (List (List ℕ))) → W × Result Error (List ℕ)
  unfolding first_vector
  embedded_query (w, err e) = (w, err e)
  embedded_query (w, ok embedded) = (w, ok (first_vector embedded))

  unfoldable pub embed_query : Embed W → Text → W → W × Result Error (List ℕ)
  unfolding embedded_query
  embed_query embed query w =
      embedded_query (embed (record { document_context = query; chunks = query ∷ [] } ∷ []) w)

  both_legs :
      List SearchResult
      → W × Result Error (List SearchResult)
      → W × Result Error (List SearchResult × List SearchResult)
  both_legs dense (w, err e) = (w, err e)
  both_legs dense (w, ok bm25) = (w, ok (dense, bm25))

  after_dense :
      StoreHandle W
      → Text
      → ℕ
      → List MetadataFilter
      → W × Result Error (List SearchResult)
      → W × Result Error (List SearchResult × List SearchResult)
  unfolding both_legs
  after_dense handle query leg_k filters (w, err e) = (w, err e)
  after_dense handle query leg_k filters (w, ok dense) =
      both_legs dense (handle.bm25_search query leg_k filters w)

  -- Both legs against one store, the dense one first.
  unfoldable pub search_store :
      StoreHandle W
      → List ℕ
      → Text
      → ℕ
      → List MetadataFilter
      → W
      → W × Result Error (List SearchResult × List SearchResult)
  unfolding after_dense
  search_store handle vector query leg_k filters w =
      after_dense handle query leg_k filters (handle.dense_search vector leg_k filters w)

  -- What one store adds to the pools.
  unfoldable pub extend : StoreHandle W → List SearchResult × List SearchResult → Pools → Pools
  unfolding retain_own_chunks insert
  extend handle (dense, bm25) pools = record {
    dense = pools.dense ++ retain_own_chunks dense handle;
    bm25 = pools.bm25 ++ retain_own_chunks bm25 handle;
    names = insert handle.id handle.name pools.names;
  }

  -- The loop over the stores, which ends at the first error.
  unfoldable pub fan_out :
      QueryRequest → List ℕ → ℕ → List (StoreHandle W) → Pools → W → W × Result Error Pools
  unfolding search_store extend
  fan_out request vector leg_k [] pools w = (w, ok pools)
  fan_out request vector leg_k (handle ∷ rest) pools w =
      let (w', answer) = search_store handle vector request.query leg_k request.filters w in
      let went = λ (legs : List SearchResult × List SearchResult).
        fan_out request vector leg_k rest (extend handle legs pools) w' in
      elim answer [ err e ↦ (w', err e) | ok legs ↦ went legs ]

unfoldable pub shape : ℕ → List (Text × Text) → List FusedChunkEntry → QueryResponse
unfolding cite
shape top_n names [] = record { citations = []; total_candidates = 0 }
shape top_n names (e ∷ es) = record {
  citations = map (cite names) (take top_n (rerank_noop (e ∷ es)));
  total_candidates = length (e ∷ es);
}

module _ (f : Floats) where
  unfoldable pub respond : ℕ → Pools → QueryResponse
  unfolding shape rrf_fuse_global pool_leg_results
  respond top_n pools =
      shape top_n pools.names (
        rrf_fuse_global f (pool_leg_results f pools.dense) (pool_leg_results f pools.bm25)
          (rrf_k f))

module _ (f : Floats) {W : Type 0} where
  answer_pools : ℕ → W × Result Error Pools → W × Result Error QueryResponse
  unfolding respond
  answer_pools top_n (w, err e) = (w, err e)
  answer_pools top_n (w, ok pools) = (w, ok (respond f top_n pools))

  with_vector :
      List (StoreHandle W)
      → QueryRequest
      → W × Result Error (List ℕ)
      → W × Result Error QueryResponse
  unfolding answer_pools fan_out
  with_vector stores request (w, err e) = (w, err e)
  with_vector stores request (w, ok vector) =
      answer_pools (unwrap_or request.top_n default_top_n)
        (fan_out request vector (unwrap_or request.leg_k default_leg_k) stores no_pools w)

  -- A query over no store answers nothing, and embeds nothing.
  unfoldable pub query :
      List (StoreHandle W) → Embed W → QueryRequest → W → W × Result Error QueryResponse
  unfolding with_vector embed_query
  query [] embed request w = (w, ok (record { citations = []; total_candidates = 0 }))
  query (handle ∷ rest) embed request w =
      with_vector (handle ∷ rest) request (embed_query embed request.query w)
