-- ===== src/Core/Ingestion/Services.antt =====
-- What the pipeline calls and does not implement: the traits `RetrievalStore`, `Embedder` and
-- `UrlFetcher`, the clock, the chunker, the hashes and the parsers of dates and URIs. An effect is
-- a function on the state of the world, of which nothing is assumed here.
use localdb.Prelude.{ℕ, Option, Bool, List, Text}
use localdb.Core.Errors.{Error, Result}
use localdb.Core.Progress.{FetchMetadata}
use localdb.Core.Ids.{Hashes}
use localdb.Core.Resource.{Span, Block, SourceSpec}
use localdb.Core.Store.{ChunkRecord, ResourceRecord, StaleFeedResource}
use localdb.Core.Chunking.{ChunkerConfig}
use localdb.Core.Ingestion.Index.{DocumentRecord, FetchResult}

abbrev pub Io : Type 0 → Type 0 → Type 0
Io W A = W → W × A

-- `ChunkOutput` of core/src/chunker/output.rs.
pub record ChunkOutput : Type 0 where
  pub id : Text
  pub text : Text
  pub span : Span
  pub heading_path : List Text
  pub block_seq : ℕ
  pub seq_in_block : ℕ
  pub window_block_seqs : List ℕ
  pub block_kind : Option Text

-- `DocumentChunks` of core/src/embedder.rs.
pub record DocumentChunks : Type 0 where
  pub document_context : Text
  pub chunks : List Text

-- What `catch_unwind` sees of a call: its return, or a panic with the text of its payload, if the
-- payload is a text.
pub data Unwind (A : Type 0) : Type 0 where
  returned : A → Unwind A
  panicked : Option Text → Unwind A

pub record Services (W : Type 0) : Type 0 where
  pub delete_by_resource : Text → Io W (Result Error ℕ)
  pub upsert_chunks_and_blocks :
      Text
      → Text
      → List ChunkRecord
      → List Block
      → Option Text
      → Option Text
      → Io W (Result Error ℕ)
  pub update_resource_metadata : Text → Text → ResourceRecord → Io W (Result Error (Unit {0}))
  pub get_resource_record : Text → Text → Io W (Result Error (Option ResourceRecord))
  pub touch_resource_checked : Text → Text → Io W (Result Error (Unit {0}))
  pub touch_resource_liveness :
      Text → Text → Option Text → Option Text → Io W (Result Error (Unit {0}))
  pub list_stale_feed_resources :
      Text → Text → Text → ℕ → Io W (Result Error (List StaleFeedResource))
  -- `Embedder::token_counter` is `Some`.
  pub has_token_counter : Bool
  pub embed_documents : List DocumentChunks → Io W (Result Error (List (List (List ℕ))))
  pub fetch : Text → FetchMetadata → Io W (Result Error FetchResult)
  pub now_rfc3339 : Io W Text
  -- `Utc::now()`, in milliseconds since `DateTime::<Utc>::MIN_UTC`.
  pub utc_now : Io W ℕ
  pub to_rfc3339 : ℕ → Text
  pub chunk_blocks :
      Text → List Block → ChunkerConfig → Bool → Unwind (Result Error (List ChunkOutput))
  pub hashes : Hashes
  pub parse_partial_iso8601 : Text → Option Text
  -- The last segment of the path of a URI that has one.
  pub last_path_segment : Text → Option Text
  -- `Uri::parse`, with the text of the parsed URI.
  pub parse_uri : Text → Option Text
  -- The order of a randomly seeded hash.
  pub shuffle : List DocumentRecord → List DocumentRecord
  pub to_lowercase : Text → Text
  -- `serde_json::to_value` of a source's specification, with the text of its failure.
  pub spec_to_value : SourceSpec → Result Text Text
