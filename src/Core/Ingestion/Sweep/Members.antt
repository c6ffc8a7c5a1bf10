-- ===== src/Core/Ingestion/Sweep/Members.antt =====
-- Membership in the lists of URIs that the sweep goes through.
use localdb.Prelude.{
  ◌≡◌, inl, inr, some, List, [], ◌∷◌, Bool, true, false, Text, text_eq, text_eq_iff, text_eq_refl,
  contains, lookup, arith, Bool-cases, keep, if◌then◌else◌,
}
use localdb.Core.Ingestion.Index.{DocumentIndex, DocumentRecord, get, uris}
use localdb.Core.Ingestion.Sweep.{any_in}

pub contains-keep :
    (p : Text → Bool) (u : Text) (xs : List Text)
    → contains u (keep p xs) ≡ (if p u then contains u xs else false)
unfolding contains
contains-keep p u [] = ground arith
contains-keep p u (x ∷ xs) = elim (Bool-cases (text_eq x u)) [
  | inl same ↦
      let e : x ≡ u = (text_eq_iff x u).0 same in
      ground (arith, contains-keep p u xs, e, same, text_eq_refl u)
  | inr apart ↦ ground (arith, contains-keep p u xs, apart)
]

pub contains-uris :
    (u : Text) (index : DocumentIndex) (d : DocumentRecord)
    → get u index ≡ some d
    → contains u (uris index) ≡ true
unfolding contains lookup
contains-uris u [] d e = ground (arith, e)
contains-uris u ((k, r) ∷ index) d e = ground (arith, contains-uris u index d)

pub any_in-intro :
    (seen : List Text) (u : Text) (xs : List Text)
    → contains u xs ≡ true
    → contains u seen ≡ true
    → any_in seen xs ≡ true
unfolding contains any_in
any_in-intro seen u [] m n = ground (arith, m)
any_in-intro seen u (x ∷ xs) m n = ground (arith, any_in-intro seen u xs, text_eq_iff x u)

pub any_in-elim :
    (seen xs : List Text)
    → any_in seen xs ≡ true
    → (u : Text) × (contains u xs ≡ true) × (contains u seen ≡ true)
unfolding contains any_in
any_in-elim seen [] h = absurd (ground (arith, h))
any_in-elim seen (x ∷ xs) h = elim (Bool-cases (contains x seen)) [
  | inl met ↦ (x, ground (arith, text_eq_refl x), met)
  | inr new ↦
      let (u, m, n) = any_in-elim seen xs (ground (arith, h, new)) in (u, ground (arith, m), n)
]
