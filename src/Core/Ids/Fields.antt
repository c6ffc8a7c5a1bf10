-- ===== src/Core/Ids/Fields.antt =====
-- That the inputs of the metadata hash can be told apart in what is hashed.
use localdb.Prelude.{ℕ, ◌≡◌, ◌≢◌, refl, Option, none, some, List, [], ◌∷◌, ◌++◌, Text, arith}
use localdb.Core.Metadata.{Metadata}
use localdb.Core.Ids.{Hashes, encode_optional_field, compute_metadata_hash}

-- A text without the byte 0.
abbrev pub HasNoNul : Text → Type 0
HasNoNul [] = Unit
HasNoNul (x ∷ xs) = (x ≢ 0) × HasNoNul xs

abbrev pub FieldHasNoNul : Option Text → Type 0
FieldHasNoNul none = Unit
FieldHasNoNul (some v) = HasNoNul v

-- The first separator ends a field.
field_ends :
    (s t u v : Text) → HasNoNul s → HasNoNul t → s ++ 0 ∷ u ≡ t ++ 0 ∷ v → (s ≡ t) × (u ≡ v)
field_ends [] [] u v p q e = ground arith
field_ends [] (y ∷ t) u v p q e = ground arith
field_ends (x ∷ s) [] u v p q e = ground arith
field_ends (x ∷ s) (y ∷ t) u v p q e = ground (arith, field_ends s t u v)

encode-HasNoNul : (o : Option Text) → FieldHasNoNul o → HasNoNul (encode_optional_field o)
unfolding encode_optional_field
encode-HasNoNul none p = tt
encode-HasNoNul (some v) p = (omega arith, p)

encode_injective : (o p : Option Text) → encode_optional_field o ≡ encode_optional_field p → o ≡ p
unfolding encode_optional_field
encode_injective none none e = refl
encode_injective none (some v) e = ground arith
encode_injective (some v) none e = ground arith
encode_injective (some v) (some w) e = ground arith

-- Two states of a resource with the same metadata hash have metadata of the same JSON text and the
-- same external id, entity tag and modification time, an absent field told from an empty one. This
-- holds if BLAKE3 does not collide, and the JSON text, the external ids and the tags have no byte 0.
pub compute_metadata_hash-injective :
    (h : Hashes)
    → ((s t : List ℕ) → h.blake3_hex s ≡ h.blake3_hex t → s ≡ t)
    → ((m : Metadata) → HasNoNul (h.metadata_json m))
    → (m n : Metadata) (i j t u d e : Option Text) → FieldHasNoNul i
    → FieldHasNoNul j
    → FieldHasNoNul t
    → FieldHasNoNul u
    → compute_metadata_hash h m i t d ≡ compute_metadata_hash h n j u e
    → (h.metadata_json m ≡ h.metadata_json n) × (i ≡ j) × (t ≡ u) × (d ≡ e)
unfolding compute_metadata_hash
compute_metadata_hash-injective h one clean m n i j t u d e pi pj pt pu same =
    let (json, rest) =
      field_ends (h.metadata_json m) (h.metadata_json n) _ _ (clean m) (clean n) (one _ _ same) in
    let (ids, rest') =
      field_ends (encode_optional_field i) (encode_optional_field j) _ _ (encode-HasNoNul i pi)
        (encode-HasNoNul j pj) rest in
    let (tags, rest'') =
      field_ends (encode_optional_field t) (encode_optional_field u) _ _ (encode-HasNoNul t pt)
        (encode-HasNoNul u pu) rest' in
    (json, encode_injective i j ids, encode_injective t u tags, encode_injective d e rest'')
