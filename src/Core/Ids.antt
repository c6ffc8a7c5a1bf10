-- ===== src/Core/Ids.antt =====
-- Ids and hashes: core/src/ids.rs. BLAKE3 and the JSON text of metadata belong to libraries: they
-- are the fields of `Hashes`.
pub mod Fields
use localdb.Prelude.{
  ℕ, zero, suc, ◌/◌, ◌%◌, ◌+◌, ◌*◌, Option, none, some, List, [], ◌∷◌, ◌++◌, Bool, Text, codes,
  map_option, if◌then◌else◌, ltb,
}
use localdb.Core.Metadata.{Metadata}

pub record Hashes : Type 0 where
  -- The hexadecimal BLAKE3 hash of a sequence of bytes.
  pub blake3_hex : List ℕ → Text
  -- `serde_json::to_string` of metadata, empty where that fails.
  pub metadata_json : Metadata → Text

-- The decimal digits of a number below `10 ^ fuel`.
digits : ℕ → ℕ → Text
digits zero n = []
digits (suc fuel) n =
    let rest = digits fuel (n / 10) in
    if ltb n 10 then (48 + n) ∷ [] else rest ++ (48 + n % 10) ∷ []

-- A number below `10 ^ 20`, as `Display` prints it; a `u64` is one.
unfoldable pub to_decimal : ℕ → Text
unfolding digits
to_decimal n = digits 20 n

-- `u32::to_le_bytes`.
abbrev to_le_bytes : ℕ → List ℕ
to_le_bytes n = n % 256 ∷ n / 256 % 256 ∷ n / 65536 % 256 ∷ n / 16777216 % 256 ∷ []

abbrev pub bool_text : Bool → Text
bool_text b = if b then codes "true" else codes "false"

unfoldable pub encode_optional_field : Option Text → Text
encode_optional_field none = []
encode_optional_field (some v) = 1 ∷ v

module _ (h : Hashes) where
  abbrev pub resource_id : Text → Text → Text
  resource_id canonical_source_uri hash = h.blake3_hex (canonical_source_uri ++ hash)

  abbrev pub content_hash : Text → Text
  content_hash text = h.blake3_hex text

  abbrev pub chunk_id : Text → ℕ → Text → ℕ → Text
  chunk_id resource block_seq chunk_text seq_in_block =
      h.blake3_hex (resource ++ to_le_bytes block_seq ++ chunk_text ++ to_le_bytes seq_in_block)

  unfoldable pub compute_metadata_hash : Metadata → Option Text → Option Text → Option Text → Text
  unfolding encode_optional_field
  compute_metadata_hash metadata external_id external_etag modified_at = content_hash (
      h.metadata_json metadata
      ++ 0
        ∷ (encode_optional_field external_id
            ++ 0 ∷ (encode_optional_field external_etag ++ 0 ∷ encode_optional_field modified_at)))

  unfoldable pub compute_feed_inputs_digest : Text → Bool → Option ℕ → Text
  unfolding encode_optional_field to_decimal
  compute_feed_inputs_digest policy_version fetch_full_content max_entries = content_hash (
      policy_version
      ++ 0
        ∷ (bool_text fetch_full_content
            ++ 0 ∷ encode_optional_field (map_option to_decimal max_entries)))
