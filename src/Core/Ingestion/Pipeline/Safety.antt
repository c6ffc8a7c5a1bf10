-- ===== src/Core/Ingestion/Pipeline/Safety.antt =====
-- What the indexing of one resource leaves in the store where nothing is written.
use localdb.Prelude.{ℕ, ◌≡◌, inl, inr, Option, List, [], ◌∷◌, Text}
use localdb.Core.Errors.{Error, Result, ok, err, Result-cases}
use localdb.Core.Resource.{Block, Resource, Source}
use localdb.Core.Store.{ChunkRecord}
use localdb.Core.Ingestion.Services.{Services, ChunkOutput, DocumentChunks}
use localdb.Core.Ingestion.Pipeline.{
  IngestionConfig, IndexOutcome, written, empty, checked_embeddings, document_chunks, chunk_records,
  write_chunks, write_embedded, embed_and_write, index_chunks, chunk_outputs, index_resource,
}

-- Unless the resource was written, the world has the property.
abbrev pub Unwritten : {W : Type 0} → (W → Type 0) → W × Result Error IndexOutcome → Type 0
Unwritten P (w, ok (written n hash)) = Unit
Unwritten P (w, ok empty) = P w
Unwritten P (w, err e) = P w

module _ {W : Type 0} (s : Services W) (config : IngestionConfig) (r : Resource) (source : Source)
    (replaces : Option Text) where
  module _ (P : W → Type 0)
      (embeds : (docs : List DocumentChunks) (w : W) → P w → P (s.embed_documents docs w).0)
      (atomic : (id : Text) (records : List ChunkRecord) (blocks : List Block)
          (old modified : Option Text) (w : W) (e : Error)
        → (s.upsert_chunks_and_blocks config.store_id id records blocks old modified w).1 ≡ err e
        → P w
        → P (s.upsert_chunks_and_blocks config.store_id id records blocks old modified w).0) where
    write_chunks-Unwritten :
        (records : List ChunkRecord) (w : W)
        → P w
        → Unwritten P (write_chunks s config r replaces records w)
    unfolding write_chunks
    write_chunks-Unwritten records w p =
        let ran =
          s.upsert_chunks_and_blocks config.store_id r.id records r.blocks replaces
            r.external_last_modified w in
        elim (Result-cases ran.1) [
          | inl (e, failed) ↦
              rw (failed, write_chunks)
                (atomic r.id records r.blocks replaces r.external_last_modified w e failed p)
          | inr (n, done) ↦ rw (done, write_chunks) tt
        ]

    write_embedded-Unwritten :
        (outputs : List ChunkOutput) (checked : Result Error (List (List ℕ))) (w : W)
        → P w
        → Unwritten P (write_embedded s config r replaces outputs checked w)
    unfolding write_embedded
    write_embedded-Unwritten outputs (err e) w p = p
    write_embedded-Unwritten outputs (ok vectors) w p =
        write_chunks-Unwritten (chunk_records s config r outputs vectors) w p

    embed_and_write-Unwritten :
        (outputs : List ChunkOutput) (w : W)
        → P w
        → Unwritten P (embed_and_write s config r replaces outputs w)
    unfolding embed_and_write
    embed_and_write-Unwritten outputs w p =
        let docs = document_chunks s r outputs ∷ [] in
        let ran = s.embed_documents docs w in
        elim (Result-cases ran.1) [
          | inl (e, failed) ↦ rw (failed, embed_and_write) (embeds docs w p)
          | inr (embedded, done) ↦
              rw (done, embed_and_write)
                (write_embedded-Unwritten outputs (checked_embeddings embedded outputs) ran.0
                  (embeds docs w p))
        ]

    index_chunks-Unwritten :
        (outputs : Result Error (List ChunkOutput)) (w : W)
        → P w
        → Unwritten P (index_chunks s config r replaces outputs w)
    unfolding index_chunks
    index_chunks-Unwritten (err e) w p = p
    index_chunks-Unwritten (ok []) w p = p
    index_chunks-Unwritten (ok (out ∷ outputs)) w p = embed_and_write-Unwritten (out ∷ outputs) w p

    -- Whatever goes wrong with a resource, a panic of the chunker, a malformed answer of the embedder
    -- or a failed write, and also where it has no chunks, the store is as it was. `P` is any property
    -- of the world, such as that an older document is still there, which embedding does not touch and
    -- which a write that fails does not touch either.
    pub index_resource-Unwritten :
        (w : W) → P w → Unwritten P (index_resource s config r source replaces w)
    unfolding index_resource
    index_resource-Unwritten w p = index_chunks-Unwritten (chunk_outputs s config source r) w p
