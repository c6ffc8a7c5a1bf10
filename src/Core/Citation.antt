-- ===== src/Core/Citation.antt =====
-- Citations: core/src/citation.rs.
use localdb.Prelude.{ℕ, Option, List, Text}
use localdb.Core.Metadata.{Metadata}
use localdb.Core.Resource.{Span}

pub record CitationStore : Type 0 where
  pub id : Text
  pub name : Text

pub record Score : Type 0 where
  pub fused : ℕ
  pub dense : Option ℕ
  pub bm25 : Option ℕ

pub record CitationProvenance : Type 0 where
  pub fetched_at : Text
  pub content_hash : Text

pub record CitationBlock : Type 0 where
  pub seq : ℕ
  pub kind : Option Text
  pub page : Option ℕ

pub record ChunkPosition : Type 0 where
  pub seq_in_block : ℕ

pub record CitationLocation : Type 0 where
  pub span : Span
  pub window_block_seqs : List ℕ

pub record Citation : Type 0 where
  pub chunk_id : Text
  pub resource_id : Text
  pub store : CitationStore
  pub uri : Text
  pub title : Option Text
  pub heading_path : List Text
  pub block : CitationBlock
  pub chunk_position : ChunkPosition
  pub location : CitationLocation
  pub snippet : Text
  pub score : Score
  pub provenance : CitationProvenance
  pub metadata : Metadata
