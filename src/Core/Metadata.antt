-- ===== src/Core/Metadata.antt =====
-- The metadata of a resource: core/src/metadata.rs, with the claim that a connector makes about a
-- document and how it is merged into what is stored.
pub mod Claims
use localdb.Prelude.{
  ℕ, Option, none, some, List, [], ◌∷◌, Bool, true, false, ◌&&◌, Text, text_eq, codes,
  if◌then◌else◌, is_none, option_eq, or_else,
}

pub record DublinCoreMetadata : Type 0 where
  pub title : Option Text
  pub creator : List Text
  pub subject : List Text
  pub description : Option Text
  pub publisher : Option Text
  pub contributor : List Text
  pub date : Option Text
  pub date_source : Option Text
  pub type : Option Text
  pub format : Option Text
  pub identifier : Option Text
  pub source : Option Text
  pub language : Option Text
  pub relation : List Text
  pub coverage : Option Text
  pub rights : Option Text

pub record DocumentMetadata : Type 0 where
  pub dublin_core : DublinCoreMetadata
  pub page_count : Option ℕ
  pub word_count : Option ℕ

pub record ConversationMetadata : Type 0 where
  pub dublin_core : DublinCoreMetadata
  pub platform : Option Text
  pub message_count : Option ℕ
  pub date_range : Option (Text × Text)

pub record TranscriptionMetadata : Type 0 where
  pub dublin_core : DublinCoreMetadata
  pub duration_ms : Option ℕ
  pub speakers : List Text
  pub media_uri : Option Text

pub data Metadata : Type 0 where
  document : DocumentMetadata → Metadata
  conversation : ConversationMetadata → Metadata
  transcription : TranscriptionMetadata → Metadata

abbrev pub dublin_core : Metadata → DublinCoreMetadata
dublin_core (document m) = m.dublin_core
dublin_core (conversation m) = m.dublin_core
dublin_core (transcription m) = m.dublin_core

-- A write through `dublin_core_mut`.
abbrev pub set_dublin_core : DublinCoreMetadata → Metadata → Metadata
set_dublin_core dc (document m) = document (record m { dublin_core = dc })
set_dublin_core dc (conversation m) = conversation (record m { dublin_core = dc })
set_dublin_core dc (transcription m) = transcription (record m { dublin_core = dc })

abbrev pub title : Metadata → Option Text
title m = (dublin_core m).title

abbrev pub feed_entry_date_source : Text
feed_entry_date_source = codes "feed-entry"

pub record MetadataEnrichment : Type 0 where
  pub title_fallback : Option Text
  pub creator : List Text
  pub date : Option Text
  pub date_source : Option Text
  pub provenance_source : Option Text

is_empty_list {ℓ} : {A : Type ℓ} → List A → Bool
is_empty_list [] = true
is_empty_list (x ∷ xs) = false

unfoldable pub is_empty : MetadataEnrichment → Bool
unfolding is_empty_list
is_empty e =
    is_none e.title_fallback
    && is_empty_list e.creator
    && is_none e.date
    && is_none e.provenance_source

fill_title : Option Text → DublinCoreMetadata → DublinCoreMetadata
fill_title fallback dc = if is_none dc.title then record dc { title = fallback } else dc

claim_creator : List Text → DublinCoreMetadata → DublinCoreMetadata
claim_creator [] dc = dc
claim_creator (c ∷ cs) dc = record dc { creator = c ∷ cs }

claim_date : Option Text → Option Text → DublinCoreMetadata → DublinCoreMetadata
claim_date (some date) by dc = record dc { date = some date; date_source = by }
claim_date none none dc = dc
claim_date none (some by) dc =
    if option_eq text_eq dc.date_source (some by)
    then record dc { date = none; date_source = none }
    else dc

claim_source : Option Text → DublinCoreMetadata → DublinCoreMetadata
claim_source none dc = dc
claim_source (some source) dc = record dc { source = some source }

unfoldable pub apply_to : MetadataEnrichment → DublinCoreMetadata → DublinCoreMetadata
unfolding fill_title claim_creator claim_date claim_source
apply_to e dc =
    claim_source e.provenance_source
      (claim_date e.date e.date_source (claim_creator e.creator (fill_title e.title_fallback dc)))
