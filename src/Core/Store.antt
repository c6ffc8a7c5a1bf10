-- ===== src/Core/Store.antt =====
-- The records that cross the trait of the stores: core/src/store.rs. A vector is the list of the
-- bit patterns of its `f32`s, and so is a score.
use localdb.Prelude.{ℕ, Option, none, List, Text}
use localdb.Core.Metadata.{Metadata}
use localdb.Core.Resource.{Span, Chunk}

pub record ChunkRecord : Type 0 where
  pub id : Text
  pub resource_id : Text
  pub store_id : Text
  pub text : Text
  pub span : Span
  pub heading_path : List Text
  pub embedding : List ℕ
  pub policy_version : Text
  pub fetched_at : Text
  pub modified_at : Option Text
  pub content_hash : Text
  pub origin_store : Text
  pub source_id : Text
  pub ingestor_kind : Text
  pub mime : Option Text
  pub uri : Text
  pub metadata : Metadata
  pub block_seq : ℕ
  pub seq_in_block : ℕ
  pub block_kind : Option Text
  pub page : Option ℕ
  pub window_block_seqs : List ℕ
  pub date_original : Option Text
  pub date_parsed : Option Text
  pub external_id : Option Text
  pub external_etag : Option Text

abbrev pub from_chunk : Chunk → List ℕ → Text → Option Text → Metadata → ChunkRecord
from_chunk c embedding uri mime metadata = record {
  id = c.id;
  resource_id = c.resource_id;
  store_id = c.store_id;
  text = c.text;
  span = c.span;
  heading_path = c.heading_path;
  embedding = embedding;
  policy_version = c.policy_version;
  fetched_at = c.provenance.fetched_at;
  modified_at = none;
  content_hash = c.provenance.content_hash;
  origin_store = c.provenance.origin_store;
  source_id = c.provenance.source_ref.id;
  ingestor_kind = c.provenance.source_ref.kind;
  mime = mime;
  uri = uri;
  metadata = metadata;
  block_seq = 0;
  seq_in_block = 0;
  block_kind = none;
  page = none;
  window_block_seqs = c.window_block_seqs;
  date_original = none;
  date_parsed = none;
  external_id = none;
  external_etag = none;
}

pub record ResourceRecord : Type 0 where
  pub metadata : Metadata
  pub external_id : Option Text
  pub external_etag : Option Text
  pub external_last_modified : Option Text
  pub modified_at : Option Text
  pub date_original : Option Text
  pub date_parsed : Option Text

pub record StaleFeedResource : Type 0 where
  pub resource_id : Text
  pub uri : Text
  pub external_etag : Option Text
  pub external_last_modified : Option Text

pub record SearchResult : Type 0 where
  pub chunk : ChunkRecord
  pub score : ℕ
