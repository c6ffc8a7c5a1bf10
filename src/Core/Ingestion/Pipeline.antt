-- ===== src/Core/Ingestion/Pipeline.antt =====
-- One resource after its extraction: core/src/ingestion/pipeline.rs. It is chunked, embedded, and
-- written in one call of the store, in that order.
pub mod Safety
pub mod Written
use localdb.Prelude.{
  ℕ, ◌==◌, Option, none, some, List, [], ◌∷◌, ◌++◌, map, Bool, true, false, Text, codes, length,
  unwrap_or, if◌then◌else◌, is_none, and_then,
}
use localdb.Core.Errors.{Error, internal, Result, ok, err}
use localdb.Core.Metadata.{Metadata, dublin_core, set_dublin_core}
use localdb.Core.Ids.{compute_metadata_hash, to_decimal}
use localdb.Core.Resource.{Block, Resource, Source, Provenance, Chunk, as_str}
use localdb.Core.Store.{ChunkRecord, from_chunk}
use localdb.Core.Chunking.{ChunkerConfig, scale_to_chars, effective_chunker_config}
use localdb.Core.Ingestion.Services.{
  Services, ChunkOutput, DocumentChunks, Unwind, returned, panicked,
}

-- `IngestionConfig` of core/src/ingestion.rs.
pub record IngestionConfig : Type 0 where
  pub store_id : Text
  pub policy_version : Text
  pub chunker : ChunkerConfig

pub data IndexOutcome : Type 0 where
  written : ℕ → Text → IndexOutcome
  empty : IndexOutcome

-- `str::replace(' ', "_")`.
abbrev underscored : Text → Text
underscored [] = []
underscored (x ∷ xs) = (if x == 32 then 95 else x) ∷ underscored xs

unfoldable pub catch_panic : {A : Type 0} → Text → Unwind (Result Error A) → Result Error A
catch_panic label (returned result) = result
catch_panic label (panicked payload) = err (
    internal (label ++ codes " panicked: " ++ unwrap_or payload (codes "unknown panic payload"))
      (underscored label))

pub record DerivedResourceState : Type 0 where
  pub metadata : Metadata
  pub metadata_hash : Text
  pub date_original : Option Text
  pub date_parsed : Option Text
  pub modified_at : Option Text

-- The title of the resource, where the metadata has none.
backfilled : Option Text → Metadata → Metadata
backfilled none m = m
backfilled (some title) m =
    if is_none (dublin_core m).title
    then set_dublin_core (record (dublin_core m) { title = some title }) m
    else m

-- `slice::join("\n\n")`.
abbrev join_texts : List Text → Text
join_texts [] = []
join_texts (t ∷ []) = t
join_texts (t ∷ u ∷ ts) = t ++ codes "\n\n" ++ join_texts (u ∷ ts)

-- The page of the last block with this number that has one: later entries of the map win.
page_of : ℕ → List Block → Option ℕ
page_of seq [] = none
page_of seq (b ∷ bs) =
    let later = page_of seq bs in
    if is_none later
    then if b.seq == seq then and_then b.location (λ l. l.page) else none
    else later

abbrev filename_hint_of : Option Text → Option Text
filename_hint_of none = none
filename_hint_of (some []) = none
filename_hint_of (some (x ∷ xs)) = some (x ∷ xs)

-- The guards on the embedder's answer: one document, and one vector for each chunk.
checked_embeddings : List (List (List ℕ)) → List ChunkOutput → Result Error (List (List ℕ))
unfolding to_decimal
checked_embeddings (vectors ∷ []) outputs =
    if length vectors == length outputs
    then ok vectors
    else err (
        internal
          (codes "embedder returned "
            ++ to_decimal (length vectors)
            ++ codes " vectors for "
            ++ to_decimal (length outputs)
            ++ codes " chunks")
          (codes "embed_chunk_count_mismatch"))
checked_embeddings embedded outputs = err (
    internal
      (codes "embedder returned "
        ++ to_decimal (length embedded)
        ++ codes " EmbeddedDocuments for 1 input document")
      (codes "embed_count_mismatch"))

module _ {W : Type 0} (s : Services W) where
  unfoldable pub derive_resource_state : Resource → DerivedResourceState
  unfolding backfilled compute_metadata_hash
  derive_resource_state resource =
      let metadata = backfilled resource.title resource.metadata in
      record {
        metadata = metadata;
        metadata_hash =
            compute_metadata_hash s.hashes metadata resource.external_id resource.external_etag
              resource.modified_at;
        date_original = (dublin_core metadata).date;
        date_parsed = and_then (dublin_core metadata).date s.parse_partial_iso8601;
        modified_at = resource.modified_at;
      }

  filename_hint_from_uri : Text → Option Text
  filename_hint_from_uri uri = filename_hint_of (s.last_path_segment uri)

  abbrev document_chunks : Resource → List ChunkOutput → DocumentChunks
  document_chunks resource outputs = record {
    document_context = join_texts (map (λ (b : Block). b.text) resource.blocks);
    chunks = map (λ (c : ChunkOutput). c.text) outputs;
  }

  provenance_of : IngestionConfig → Resource → Provenance
  provenance_of config resource = record {
    origin_store = config.store_id;
    source_ref = record { id = resource.source_id; kind = as_str resource.ingestor_kind };
    fetched_at = resource.added_at;
    content_hash = resource.content_hash;
    share_path = [];
  }

  chunk_record : IngestionConfig → Resource → ChunkOutput → List ℕ → ChunkRecord
  unfolding provenance_of page_of derive_resource_state
  chunk_record config resource out embedding =
      let derived = derive_resource_state resource in
      let chunk : Chunk = record {
        id = out.id;
        resource_id = resource.id;
        store_id = config.store_id;
        text = out.text;
        span = out.span;
        heading_path = out.heading_path;
        policy_version = config.policy_version;
        provenance = provenance_of config resource;
        window_block_seqs = out.window_block_seqs;
      } in
      record (from_chunk chunk embedding resource.uri resource.mime derived.metadata) {
        block_seq = out.block_seq;
        seq_in_block = out.seq_in_block;
        block_kind = out.block_kind;
        page = page_of out.block_seq resource.blocks;
        modified_at = derived.modified_at;
        date_original = derived.date_original;
        date_parsed = derived.date_parsed;
        external_id = resource.external_id;
        external_etag = resource.external_etag;
      }

  -- `chunk_outputs.iter().zip(embeddings.iter())`.
  chunk_records : IngestionConfig → Resource → List ChunkOutput → List (List ℕ) → List ChunkRecord
  unfolding chunk_record
  chunk_records config resource [] vectors = []
  chunk_records config resource (out ∷ outputs) [] = []
  chunk_records config resource (out ∷ outputs) (v ∷ vectors) =
      chunk_record config resource out v ∷ chunk_records config resource outputs vectors

  write_chunks :
      IngestionConfig
      → Resource
      → Option Text
      → List ChunkRecord
      → W
      → W × Result Error IndexOutcome
  unfolding derive_resource_state
  write_chunks config resource replaces records w =
      let (w', answer) =
        s.upsert_chunks_and_blocks config.store_id resource.id records resource.blocks replaces
          resource.external_last_modified w in
      elim answer [
        | err e ↦ (w', err e)
        | ok n ↦ (w', ok (written (length records) (derive_resource_state resource).metadata_hash))
      ]

  write_embedded :
      IngestionConfig
      → Resource
      → Option Text
      → List ChunkOutput
      → Result Error (List (List ℕ))
      → W
      → W × Result Error IndexOutcome
  unfolding write_chunks chunk_records
  write_embedded config resource replaces outputs (err e) w = (w, err e)
  write_embedded config resource replaces outputs (ok vectors) w =
      write_chunks config resource replaces (chunk_records config resource outputs vectors) w

  embed_and_write :
      IngestionConfig
      → Resource
      → Option Text
      → List ChunkOutput
      → W
      → W × Result Error IndexOutcome
  unfolding write_embedded checked_embeddings
  embed_and_write config resource replaces outputs w =
      let (w', answer) = s.embed_documents (document_chunks resource outputs ∷ []) w in
      elim answer [
        | err e ↦ (w', err e)
        | ok embedded ↦
            write_embedded config resource replaces outputs (checked_embeddings embedded outputs) w'
      ]

  index_chunks :
      IngestionConfig
      → Resource
      → Option Text
      → Result Error (List ChunkOutput)
      → W
      → W × Result Error IndexOutcome
  unfolding embed_and_write
  index_chunks config resource replaces (err e) w = (w, err e)
  index_chunks config resource replaces (ok []) w = (w, ok empty)
  index_chunks config resource replaces (ok (out ∷ outputs)) w =
      embed_and_write config resource replaces (out ∷ outputs) w

  -- The configuration of the chunker for one resource.
  chunker_for : IngestionConfig → Source → Resource → ChunkerConfig
  unfolding scale_to_chars effective_chunker_config filename_hint_from_uri
  chunker_for config source resource =
      let effective =
        effective_chunker_config s.to_lowercase source.source_preset config.chunker
          (filename_hint_from_uri resource.uri) resource.mime in
      if s.has_token_counter then effective else scale_to_chars effective

  unfoldable pub chunk_outputs :
      IngestionConfig → Source → Resource → Result Error (List ChunkOutput)
  unfolding chunker_for catch_panic
  chunk_outputs config source resource = catch_panic (codes "chunk") (
      s.chunk_blocks resource.id resource.blocks (chunker_for config source resource)
        s.has_token_counter)

  unfoldable pub index_resource :
      IngestionConfig → Resource → Source → Option Text → W → W × Result Error IndexOutcome
  unfolding index_chunks chunk_outputs
  index_resource config resource source replaces w =
      index_chunks config resource replaces (chunk_outputs config source resource) w
