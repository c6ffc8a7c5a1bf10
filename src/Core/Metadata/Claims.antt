-- ===== src/Core/Metadata/Claims.antt =====
-- The merge of a connector's claim in core/src/metadata.rs, done twice.
use localdb.Prelude.{◌≡◌, Option, List, Text, arith}
use localdb.Core.Metadata.{
  DublinCoreMetadata, MetadataEnrichment, fill_title, claim_creator, claim_date, claim_source,
  apply_to,
}

claims_again :
    (t d s p : Option Text) (c : List Text) (dc : DublinCoreMetadata)
    → let once = claim_source p (claim_date d s (claim_creator c (fill_title t dc))) in
      claim_source p (claim_date d s (claim_creator c (fill_title t once))) ≡ once
unfolding fill_title claim_creator claim_date claim_source
claims_again t d s p c dc = ground arith

-- `MetadataEnrichment::apply_to` is idempotent: to merge a claim into metadata that it was just
-- merged into changes nothing.
pub apply_to-apply_to :
    (e : MetadataEnrichment) (dc : DublinCoreMetadata) → apply_to e (apply_to e dc) ≡ apply_to e dc
unfolding apply_to
apply_to-apply_to e dc =
    claims_again e.title_fallback e.date e.date_source e.provenance_source e.creator dc
