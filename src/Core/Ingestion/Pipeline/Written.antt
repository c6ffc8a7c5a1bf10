-- ===== src/Core/Ingestion/Pipeline/Written.antt =====
-- What it means that the indexing of one resource ends as written: core/src/ingestion/pipeline.rs.
use mathlib.Core.Path.{subst}
use localdb.Prelude.{
  ℕ, ==_iff, ◌≡◌, ◌<◌, sym, ◌∙◌, refl, inl, inr, ap, Option, List, [], ◌∷◌, map, Text, arith,
  length, All,
}
use localdb.Core.Errors.{Error, Result, ok, err, Result-cases}
use localdb.Core.Ids.{compute_metadata_hash}
use localdb.Core.Resource.{Resource, Source}
use localdb.Core.Store.{ChunkRecord}
use localdb.Core.Ingestion.Services.{Services, ChunkOutput}
use localdb.Core.Ingestion.Pipeline.{
  IngestionConfig, IndexOutcome, written, checked_embeddings, derive_resource_state,
  document_chunks, chunk_record, chunk_records, write_chunks, write_embedded, embed_and_write,
  index_chunks, chunk_outputs, index_resource,
}

checked_embeddings-ok :
    (embedded : List (List (List ℕ))) (outputs : List ChunkOutput) (vectors : List (List ℕ))
    → checked_embeddings embedded outputs ≡ ok vectors
    → (embedded ≡ vectors ∷ []) × (length vectors ≡ length outputs)
unfolding checked_embeddings
checked_embeddings-ok [] outputs vectors e = ground (arith, e)
checked_embeddings-ok (v ∷ []) outputs vectors e =
    ground (arith, e, ==_iff (length v) (length outputs))
checked_embeddings-ok (v ∷ u ∷ rest) outputs vectors e = ground (arith, e)

module _ {W : Type 0} (s : Services W) (config : IngestionConfig) (r : Resource)
    (replaces : Option Text) where
  length-chunk_records :
      (outputs : List ChunkOutput) (vectors : List (List ℕ))
      → length vectors ≡ length outputs
      → length (chunk_records s config r outputs vectors) ≡ length outputs
  unfolding chunk_records
  length-chunk_records [] vectors e = refl
  length-chunk_records (out ∷ outputs) [] e = omega (arith, e)
  length-chunk_records (out ∷ outputs) (v ∷ vectors) e =
      omega (arith, length-chunk_records outputs vectors (omega (arith, e)))

  -- What a record says of its resource, with `hash` the hash of the metadata that it carries.
  abbrev pub Describes : Text → ChunkRecord → Type 0
  Describes hash chunk =
      (chunk.resource_id ≡ r.id)
      × (chunk.store_id ≡ config.store_id)
      × (hash
          ≡ compute_metadata_hash s.hashes chunk.metadata chunk.external_id chunk.external_etag
              chunk.modified_at)

  chunk_records-Describes :
      (outputs : List ChunkOutput) (vectors : List (List ℕ))
      → All
          (Describes (derive_resource_state s r).metadata_hash)
          (chunk_records s config r outputs vectors)
  unfolding chunk_records chunk_record derive_resource_state
  chunk_records-Describes [] vectors = tt
  chunk_records-Describes (out ∷ outputs) [] = tt
  chunk_records-Describes (out ∷ outputs) (v ∷ vectors) =
      ((refl, refl, refl), chunk_records-Describes outputs vectors)

  -- The records carry the texts of the chunks and the vectors, in order.
  abbrev pub Carries : List ChunkOutput → List (List ℕ) → List ChunkRecord → Type 0
  Carries outputs vectors records =
      (map (λ (c : ChunkRecord). c.text) records ≡ map (λ (c : ChunkOutput). c.text) outputs)
      × (map (λ (c : ChunkRecord). c.embedding) records ≡ vectors)

  chunk_records-Carries :
      (outputs : List ChunkOutput) (vectors : List (List ℕ))
      → length vectors ≡ length outputs
      → Carries outputs vectors (chunk_records s config r outputs vectors)
  unfolding chunk_records chunk_record
  chunk_records-Carries [] [] e = (refl, refl)
  chunk_records-Carries [] (v ∷ vectors) e = absurd (omega (arith, e))
  chunk_records-Carries (out ∷ outputs) [] e = absurd (omega (arith, e))
  chunk_records-Carries (out ∷ outputs) (v ∷ vectors) e =
      let (texts, embeddings) = chunk_records-Carries outputs vectors (omega (arith, e)) in
      (ap (λ ts. out.text ∷ ts) texts, ap (λ vs. v ∷ vs) embeddings)

  -- One write of the records, which the store took, leads from the one world to the other.
  abbrev pub Saved : List ChunkRecord → W → W → Type 0
  Saved records w end =
      let ran =
        s.upsert_chunks_and_blocks config.store_id r.id records r.blocks replaces
          r.external_last_modified w in
      (count : ℕ) × (ran.1 ≡ ok count) × (end ≡ ran.0)

  written_by_store :
      (records : List ChunkRecord) (w : W) (n : ℕ) (hash : Text)
      → (write_chunks s config r replaces records w).1 ≡ ok (written n hash)
      → (length records ≡ n)
        × ((derive_resource_state s r).metadata_hash ≡ hash)
        × Saved records w (write_chunks s config r replaces records w).0
  unfolding write_chunks
  written_by_store records w n hash e =
      let ran =
        s.upsert_chunks_and_blocks config.store_id r.id records r.blocks replaces
          r.external_last_modified w in
      elim (Result-cases ran.1) [
        | inl (bad, failed) ↦ absurd (ground (arith, e, failed))
        | inr (count, done) ↦ (
          ground (arith, e, done),
          ground (arith, e, done),
          (count, done, rw (done, write_chunks) refl),
        )
      ]

  -- What is written of a document, from the world after the embedding.
  abbrev pub Keeps : ℕ → Text → List ChunkOutput → List (List ℕ) → W → W → Type 0
  Keeps n hash outputs vectors w end =
      (length outputs ≡ n)
      × (length vectors ≡ n)
      × ((records : List ChunkRecord) × Saved records w end
          × Carries outputs vectors records
          × All (Describes hash) records)
      × (hash ≡ (derive_resource_state s r).metadata_hash)

  write_embedded-ok :
      (outputs : List ChunkOutput) (vectors : List (List ℕ)) (w : W) (n : ℕ) (hash : Text)
      → length vectors ≡ length outputs
      → (write_embedded s config r replaces outputs (ok vectors) w).1 ≡ ok (written n hash)
      → Keeps n hash outputs vectors w (write_embedded s config r replaces outputs (ok vectors) w).0
  unfolding write_embedded
  write_embedded-ok outputs vectors w n hash size e =
      let records = chunk_records s config r outputs vectors in
      let (count, hashed, saved) = written_by_store records w n hash e in
      let all = length-chunk_records outputs vectors size in
      (
        omega (arith, all, count),
        omega (arith, size, all, count),
        (
          records,
          saved,
          chunk_records-Carries outputs vectors size,
          subst (λ h. All (Describes h) records) hashed (chunk_records-Describes outputs vectors),
        ),
        sym hashed,
      )

  write_embedded-err :
      (outputs : List ChunkOutput) (bad : Error) (w : W) (n : ℕ) (hash : Text)
      → ¬ ((write_embedded s config r replaces outputs (err bad) w).1 ≡ ok (written n hash))
  unfolding write_embedded
  write_embedded-err outputs bad w n hash e = ground (arith, e)

  written_embedded :
      (outputs : List ChunkOutput) (embedded : List (List (List ℕ))) (w : W) (n : ℕ) (hash : Text)
      (checked : Result Error (List (List ℕ)))
      → checked_embeddings embedded outputs ≡ checked
      → (write_embedded s config r replaces outputs checked w).1 ≡ ok (written n hash)
      → (vectors : List (List ℕ)) × (embedded ≡ vectors ∷ [])
        × Keeps n hash outputs vectors w (write_embedded s config r replaces outputs checked w).0
  written_embedded outputs embedded w n hash (err bad) fits e =
      absurd (write_embedded-err outputs bad w n hash e)
  written_embedded outputs embedded w n hash (ok vectors) fits e =
      let (one, size) = checked_embeddings-ok embedded outputs vectors fits in
      (vectors, one, write_embedded-ok outputs vectors w n hash size e)

  embed_and_write-ok :
      (outputs : List ChunkOutput) (embedded : List (List (List ℕ))) (w : W)
      → let ran = s.embed_documents (document_chunks s r outputs ∷ []) w in
        ran.1 ≡ ok embedded
        → embed_and_write s config r replaces outputs w
          ≡ write_embedded s config r replaces outputs (checked_embeddings embedded outputs) ran.0
  unfolding embed_and_write
  embed_and_write-ok outputs embedded w done = rw (done, embed_and_write) refl

  embed_and_write-err :
      (outputs : List ChunkOutput) (bad : Error) (w : W) (n : ℕ) (hash : Text)
      → (s.embed_documents (document_chunks s r outputs ∷ []) w).1 ≡ err bad
      → ¬ ((embed_and_write s config r replaces outputs w).1 ≡ ok (written n hash))
  unfolding embed_and_write
  embed_and_write-err outputs bad w n hash failed e = ground (arith, e, failed)

  -- What the chunker's answer comes to, if something was written.
  abbrev pub Wrote : ℕ → Text → Result Error (List ChunkOutput) → W → W → Type 0
  Wrote n hash chunked w end =
      (outputs : List ChunkOutput) × (vectors : List (List ℕ)) × (chunked ≡ ok outputs)
      × ((s.embed_documents (document_chunks s r outputs ∷ []) w).1 ≡ ok (vectors ∷ []))
      × (0 < n)
      × Keeps n hash outputs vectors (s.embed_documents (document_chunks s r outputs ∷ []) w).0 end

  chunks_written :
      (out : ChunkOutput) (outputs : List ChunkOutput) (w : W) (n : ℕ) (hash : Text)
      → (embed_and_write s config r replaces (out ∷ outputs) w).1 ≡ ok (written n hash)
      → Wrote n hash
          (ok (out ∷ outputs))
          w
          (embed_and_write s config r replaces (out ∷ outputs) w).0
  chunks_written out outputs w n hash e =
      let all = out ∷ outputs in
      let ran = s.embed_documents (document_chunks s r all ∷ []) w in
      elim (Result-cases ran.1) [
        | inl (bad, failed) ↦ absurd (embed_and_write-err all bad w n hash failed e)
        | inr (embedded, done) ↦
            let same = embed_and_write-ok all embedded w done in
            let (vectors, one, keeps) =
              written_embedded all embedded ran.0 n hash (checked_embeddings embedded all) refl
                (sym (ap (λ (p : W × Result Error IndexOutcome). p.1) same) ∙ e) in
            (
              all,
              vectors,
              refl,
              done ∙ ap ok one,
              omega (arith, keeps.0),
              subst (λ (p : W × Result Error IndexOutcome). Keeps n hash all vectors ran.0 p.0)
                  (sym same) keeps,
            )
      ]

  index_chunks-Wrote :
      (chunked : Result Error (List ChunkOutput)) (w : W) (n : ℕ) (hash : Text)
      → (index_chunks s config r replaces chunked w).1 ≡ ok (written n hash)
      → Wrote n hash chunked w (index_chunks s config r replaces chunked w).0
  unfolding index_chunks
  index_chunks-Wrote (err bad) w n hash h = absurd (ground (arith, h))
  index_chunks-Wrote (ok []) w n hash h = absurd (ground (arith, h))
  index_chunks-Wrote (ok (out ∷ outputs)) w n hash h = chunks_written out outputs w n hash h

  -- A resource that ends as `Written` with a count was chunked into that many chunks, more than none;
  -- the embedder answered one document with a vector for each; and the store took one write after
  -- that, of records that carry the texts of the chunks and the vectors in order. Each record is of
  -- this resource and this store, and the hash that the index is given is that of the metadata, the
  -- external id and etag and the modification time which the record itself carries.
  pub index_resource-written :
      (source : Source) (w : W) (n : ℕ) (hash : Text)
      → (index_resource s config r source replaces w).1 ≡ ok (written n hash)
      → Wrote n hash
          (chunk_outputs s config source r)
          w
          (index_resource s config r source replaces w).0
  unfolding index_resource
  index_resource-written source w n hash e =
      index_chunks-Wrote (chunk_outputs s config source r) w n hash e
