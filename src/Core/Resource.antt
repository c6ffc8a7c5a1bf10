-- ===== src/Core/Resource.antt =====
-- Resources, blocks and sources: core/src/block.rs, and the source, chunk and provenance records of
-- core/src/types.rs. A `u32` and a `usize` are numbers, and a vector is the list of the bit
-- patterns of its `f32`s.
use localdb.Prelude.{ℕ, Option, List, Bool, true, false, Text, codes}
use localdb.Core.Metadata.{Metadata}

pub data ResourceKind : Type 0 where
  document_kind conversation_kind transcription_resource : ResourceKind

pub data IngestorKind : Type 0 where
  file url notion telegram signal hack_md email transcription_kind feed : IngestorKind

abbrev pub as_str : IngestorKind → Text
as_str file = codes "file"
as_str url = codes "url"
as_str notion = codes "notion"
as_str telegram = codes "telegram"
as_str signal = codes "signal"
as_str hack_md = codes "hackmd"
as_str email = codes "email"
as_str transcription_kind = codes "transcription"
as_str feed = codes "feed"

pub data BlockKind : Type 0 where
  heading : ℕ → BlockKind
  text : BlockKind
  code_block : Option Text → BlockKind
  table : List Text → ℕ → BlockKind
  message : Text → Option Text → Option Text → Option Text → BlockKind
  segment : Option Text → ℕ → ℕ → BlockKind
  reference : Text → Option Text → Option Text → BlockKind
  attachment : Text → Option Text → Option ℕ → BlockKind
  frontmatter : Text → BlockKind
  image : Option Text → Option Text → BlockKind

abbrev pub kind_str : BlockKind → Text
kind_str (heading level) = codes "heading"
kind_str text = codes "text"
kind_str (code_block language) = codes "code"
kind_str (table headers rows) = codes "table"
kind_str (message sender timestamp id reply) = codes "message"
kind_str (segment speaker from upto) = codes "segment"
kind_str (reference target label ref) = codes "reference"
kind_str (attachment filename mime size) = codes "attachment"
kind_str (frontmatter format) = codes "frontmatter"
kind_str (image alt src) = codes "image"

pub record BoundingBox : Type 0 where
  pub x : ℕ
  pub y : ℕ
  pub width : ℕ
  pub height : ℕ

pub record BlockLocation : Type 0 where
  pub page : Option ℕ
  pub bbox : Option BoundingBox
  pub section : Option (List Text)
  pub line_start : Option ℕ
  pub line_end : Option ℕ
  pub uri_fragment : Option Text

pub record Block : Type 0 where
  pub seq : ℕ
  pub kind : BlockKind
  pub text : Text
  pub location : Option BlockLocation

-- A `Uri` is its text (`Uri::as_str`).
pub record Resource : Type 0 where
  pub id : Text
  pub store_id : Text
  pub source_id : Text
  pub ingestor_kind : IngestorKind
  pub resource_kind : ResourceKind
  pub uri : Text
  pub external_id : Option Text
  pub external_etag : Option Text
  pub external_last_modified : Option Text
  pub content_hash : Text
  pub title : Option Text
  pub mime : Option Text
  pub metadata : Metadata
  pub added_at : Text
  pub modified_at : Option Text
  pub thread_id : Option Text
  pub channel : Option Text
  pub participants : List Text
  pub origin_store : Text
  pub policy_version : Text
  pub share_path : Option Text
  pub extractor_version : Text
  pub blocks : List Block

pub data SourceKind : Type 0 where
  path_kind url_kind feed_kind : SourceKind

pub data SourceSpec : Type 0 where
  path : Text → List Text → List Text → SourceSpec
  url_spec : Text → Option ℕ → SourceSpec
  feed_spec : Text → Option ℕ → Bool → Option ℕ → SourceSpec

pub record Source : Type 0 where
  pub id : Text
  pub store_id : Text
  pub kind : SourceKind
  pub spec : SourceSpec
  pub source_preset : Text

-- `matches!(spec, SourceSpec::Feed { .. })`.
abbrev pub is_feed : SourceSpec → Bool
is_feed (path root include exclude) = false
is_feed (url_spec link interval) = false
is_feed (feed_spec link entries full interval) = true

-- `source_location`.
abbrev pub source_location : SourceSpec → Text
source_location (path root include exclude) = root
source_location (url_spec link interval) = link
source_location (feed_spec link entries full interval) = link

pub record Span : Type 0 where
  pub start : ℕ
  pub end : ℕ

pub record SourceRef : Type 0 where
  pub id : Text
  pub kind : Text

pub record FederationHop : Type 0 where
  pub node : Text
  pub store : Text

pub record Provenance : Type 0 where
  pub origin_store : Text
  pub source_ref : SourceRef
  pub fetched_at : Text
  pub content_hash : Text
  pub share_path : List FederationHop

pub record Chunk : Type 0 where
  pub id : Text
  pub resource_id : Text
  pub store_id : Text
  pub text : Text
  pub span : Span
  pub heading_path : List Text
  pub policy_version : Text
  pub provenance : Provenance
  pub window_block_seqs : List ℕ
