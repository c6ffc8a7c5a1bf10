-- ===== src/Core/Ingestion/Callback/Freshness.antt =====
-- When the recheck gate lets a document be.
use localdb.Prelude.{
  ◌≡◌, refl, inl, inr, Option, none, some, true, false, not, Text, text_eq, text_eq_iff, text_lt,
  arith, Bool-cases, Option-cases,
}
use localdb.Core.Errors.{Error, Result, ok, err}
use localdb.Core.Store.{ResourceRecord}
use localdb.Core.Ids.{compute_metadata_hash}
use localdb.Core.Metadata.{dublin_core, set_dublin_core, apply_to}
use localdb.Core.Ingestion.Services.{Services}
use localdb.Core.Ingestion.Index.{DocumentRecord, get}
use localdb.Core.Ingestion.Recheck.{recheck_floor_start_rfc3339}
use localdb.Core.Ingestion.Callback.{Context, PipelineCallback}
use localdb.Core.Ingestion.Callback.Gate.{
  Claim, feed_interval, read_outcome, read_persisted_record, merged_onto, merged_outcome,
  merge_metadata_claim, recheck_claim_label, claim_differs, due_since, due_known, recheck_is_due,
}

equal_of : (a b : Text) → not (text_eq a b) ≡ false → a ≡ b
equal_of a b h = ground (arith, h, text_eq_iff a b)

module _ {W : Type 0} (s : Services W) (c : Context) where
  -- What a document must be for its fetch to be put off: indexed under the policy of the run, checked
  -- no earlier than the floor, in a row that can be read, and the claim reproduces its hash.
  unfoldable pub IsFresh : DocumentRecord → Claim → W → Type 0
  IsFresh d claim w =
      let (w', now) = s.utc_now w in
      (d.policy_version ≡ c.config.policy_version)
      × (c.refetch ≡ false)
      × ((checked : Text) × (d.last_checked_at ≡ some checked)
          × (text_lt checked
                (recheck_floor_start_rfc3339 s.to_rfc3339 now (feed_interval c.source.spec))
              ≡ false))
      × ((row : ResourceRecord) × ((s.get_resource_record c.config.store_id d.resource_id w').1
            ≡ ok (some row))
          × (compute_metadata_hash s.hashes
                (set_dublin_core (apply_to claim.enrichment (dublin_core row.metadata))
                  row.metadata)
                claim.external_id d.external_etag claim.modified_at
              ≡ d.metadata_hash))

  claim_fresh :
      (d : DocumentRecord) (claim : Claim) (answer : Result Error (Option ResourceRecord))
      (uri what : Text)
      → claim_differs s c d (merged_outcome s c d claim (read_outcome s c uri what answer)) ≡ false
      → (row : ResourceRecord) × (answer ≡ ok (some row))
        × (compute_metadata_hash s.hashes
              (set_dublin_core (apply_to claim.enrichment (dublin_core row.metadata)) row.metadata)
              claim.external_id
              d.external_etag
              claim.modified_at
            ≡ d.metadata_hash)
  unfolding claim_differs merged_outcome read_outcome merged_onto
  claim_fresh d claim (err e) uri what h = absurd (ground (arith, h))
  claim_fresh d claim (ok none) uri what h = absurd (ground (arith, h))
  claim_fresh d claim (ok (some row)) uri what h = (row, refl, equal_of _ _ h)

  known-IsFresh :
      (d : DocumentRecord) (claim : Claim) (w : W) (checked : Text)
      → d.last_checked_at ≡ some checked
      → (due_known s c d claim w).1 ≡ false
      → IsFresh d claim w
  unfolding due_known due_since merge_metadata_claim read_persisted_record IsFresh
  known-IsFresh d claim w checked at h =
      let now = s.utc_now w in
      let floor = recheck_floor_start_rfc3339 s.to_rfc3339 now.1 (feed_interval c.source.spec) in
      elim (Bool-cases (text_eq d.policy_version c.config.policy_version)) [
        | inr other ↦ absurd (ground (arith, h, other))
        | inl same ↦ elim (Bool-cases c.refetch) [
          | inl forced ↦ absurd (ground (arith, h, same, forced))
          | inr plain ↦ elim (Bool-cases (text_lt checked floor)) [
            | inl old ↦ absurd (ground (arith, h, same, plain, at, old))
            | inr young ↦ (
              (text_eq_iff d.policy_version c.config.policy_version).0 same,
              plain,
              (checked, at, young),
              claim_fresh d claim (s.get_resource_record c.config.store_id d.resource_id now.0).1
                  d.uri recheck_claim_label (ground (arith, h, same, plain, at, young)),
            )
          ]
        ]
      ]

  never_checked :
      (d : DocumentRecord) (claim : Claim) (w : W)
      → d.last_checked_at ≡ none
      → (due_known s c d claim w).1 ≡ true
  unfolding due_known
  never_checked d claim w e = ground (arith, e)

  -- The recheck gate puts a fetch off only for a document that the index knows under the policy of the
  -- run, that was checked no earlier than the floor, and whose stored row the claim reproduces; and
  -- never where a refetch was asked for, where it was not checked yet, or where its row is missing or
  -- cannot be read.
  pub recheck_is_due-IsFresh :
      (uri : Text) (claim : Claim) (cb : PipelineCallback W)
      → (recheck_is_due s c uri claim cb).1 ≡ false
      → (d : DocumentRecord) × (get uri cb.doc_index ≡ some d) × IsFresh d claim cb.world
  unfolding recheck_is_due
  recheck_is_due-IsFresh uri claim cb h = elim (Option-cases (get uri cb.doc_index)) [
    | inl new ↦ absurd (ground (arith, h, new))
    | inr (d, known) ↦
        let due : (due_known s c d claim cb.world).1 ≡ false = ground (arith, h, known) in
        elim (Option-cases d.last_checked_at) [
          | inl never ↦ absurd (ground (arith, never_checked d claim cb.world never, due))
          | inr (checked, at) ↦ (d, known, known-IsFresh d claim cb.world checked at due)
        ]
  ]
