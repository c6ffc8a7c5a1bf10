-- ===== src/Core/Ingestion/Sweep/Owned.antt =====
-- The documents of one source in an index with one record for each URI, and what the removal of a
-- URI does to them.
use localdb.Prelude.{
  suc, ◌≡◌, refl, inl, inr, ap, some, List, [], ◌∷◌, Bool, true, false, Text, text_eq, text_eq_iff,
  text_eq_refl, contains, delete, lookup, remove, has_key, Unique, lookup-remove, keep, count,
  length, arith, Bool-cases, if◌then◌else◌,
}
use localdb.Core.Ingestion.Index.{DocumentIndex, DocumentRecord, get, uris}
use localdb.Core.Ingestion.Sweep.{owned_by, any_in, owned_uris}

-- No text stands twice in the list.
abbrev pub NoDup : List Text → Type 0
NoDup [] = Unit
NoDup (x ∷ xs) = (contains x xs ≡ false) × NoDup xs

pub owned_by-remove :
    (sid k : Text) (index : DocumentIndex) (u : Text)
    → text_eq k u ≡ false
    → owned_by sid (remove k index) u ≡ owned_by sid index u
unfolding owned_by
owned_by-remove sid k index u apart = ground (arith, lookup-remove k u index)

pub has_key-remove_other :
    (k u : Text) (index : DocumentIndex)
    → text_eq k u ≡ false
    → has_key u (remove k index) ≡ has_key u index
unfolding remove
has_key-remove_other k u [] apart = refl
has_key-remove_other k u ((j, r) ∷ index) apart =
    ground (arith, has_key-remove_other k u index, text_eq_iff j k, text_eq_iff j u)

remove-absent :
    (k : Text) (index : DocumentIndex) → has_key k index ≡ false → remove k index ≡ index
unfolding remove
remove-absent k [] e = refl
remove-absent k ((j, r) ∷ index) e = ground (arith, remove-absent k index)

pub length-remove :
    (k : Text) (index : DocumentIndex)
    → Unique index
    → has_key k index ≡ true
    → suc (length (remove k index)) ≡ length index
unfolding remove
length-remove k [] u e = ground (arith, e)
length-remove k ((j, r) ∷ index) u e = elim (Bool-cases (text_eq j k)) [
  | inl same ↦
      let e' : j ≡ k = (text_eq_iff j k).0 same in
      ground (arith, same, remove-absent k index, u.0, e')
  | inr apart ↦ ground (arith, length-remove k index u.1, apart, e)
]

-- The documents of the source, entry by entry.
pub owned_entries : Text → DocumentIndex → List Text
owned_entries sid [] = []
owned_entries sid ((u, r) ∷ index) =
    let rest = owned_entries sid index in if text_eq r.source_id sid then u ∷ rest else rest

keep-cons_absent :
    (sid u : Text) (r : DocumentRecord) (whole index : DocumentIndex)
    → has_key u index ≡ false
    → keep (owned_by sid ((u, r) ∷ whole)) (uris index) ≡ keep (owned_by sid whole) (uris index)
unfolding owned_by lookup
keep-cons_absent sid u r whole [] e = refl
keep-cons_absent sid u r whole ((v, t) ∷ index) e =
    ground (arith, keep-cons_absent sid u r whole index, text_eq_iff u v, text_eq_iff v u)

pub owned_uris-entries :
    (sid : Text) (index : DocumentIndex)
    → Unique index
    → owned_uris sid index ≡ owned_entries sid index
unfolding owned_uris owned_entries owned_by lookup
owned_uris-entries sid [] u = refl
owned_uris-entries sid ((k, r) ∷ index) u =
    let rest = owned_uris-entries sid index u.1 in
    let tail = keep-cons_absent sid k r index index u.0 in
    ground (arith, rest, tail, text_eq_refl k)

pub owned_entries-remove :
    (sid k : Text) (index : DocumentIndex)
    → owned_entries sid (remove k index) ≡ delete k (owned_entries sid index)
unfolding owned_entries remove delete
owned_entries-remove sid k [] = refl
owned_entries-remove sid k ((j, r) ∷ index) = ground (arith, owned_entries-remove sid k index)

pub count-delete :
    (p : Text → Bool) (k : Text) (xs : List Text) → p k ≡ false → count p (delete k xs) ≡ count p xs
unfolding delete
count-delete p k [] e = refl
count-delete p k (x ∷ xs) e = elim (Bool-cases (text_eq x k)) [
  | inl same ↦
      let e' : x ≡ k = (text_eq_iff x k).0 same in
      ground (arith, count-delete p k xs e, same, ap p e', e)
  | inr apart ↦ ground (arith, count-delete p k xs e, apart)
]

pub any_in-delete :
    (seen : List Text) (k : Text) (xs : List Text)
    → contains k seen ≡ false
    → any_in seen (delete k xs) ≡ any_in seen xs
unfolding delete any_in
any_in-delete seen k [] e = refl
any_in-delete seen k (x ∷ xs) e = ground (arith, any_in-delete seen k xs, text_eq_iff x k)

pub owned_entries-known :
    (sid u : Text) (index : DocumentIndex)
    → contains u (owned_entries sid index) ≡ true
    → has_key u index ≡ true
unfolding owned_entries contains
owned_entries-known sid u [] e = ground (arith, e)
owned_entries-known sid u ((j, r) ∷ index) e = ground (arith, owned_entries-known sid u index, e)

pub owned_entries-NoDup :
    (sid : Text) (index : DocumentIndex) → Unique index → NoDup (owned_entries sid index)
unfolding owned_entries
owned_entries-NoDup sid [] u = tt
owned_entries-NoDup sid ((j, r) ∷ index) u = ground (
  arith,
  owned_entries-NoDup sid index u.1,
  u.0,
  owned_entries-known sid j index,
  Bool-cases (contains j (owned_entries sid index)),
)

pub has_key-get :
    (k : Text) (index : DocumentIndex)
    → has_key k index ≡ true
    → (d : DocumentRecord) × (get k index ≡ some d)
unfolding lookup
has_key-get k [] e = absurd (ground (arith, e))
has_key-get k ((j, r) ∷ index) e = elim (Bool-cases (text_eq j k)) [
  | inl same ↦ (r, ground (arith, same))
  | inr apart ↦
      let (d, known) = has_key-get k index (ground (arith, e, apart)) in
      (d, ground (arith, known, apart))
]

pub get-has_key :
    (k : Text) (index : DocumentIndex) (d : DocumentRecord)
    → get k index ≡ some d
    → has_key k index ≡ true
unfolding lookup
get-has_key k [] d e = ground (arith, e)
get-has_key k ((j, r) ∷ index) d e = ground (arith, get-has_key k index d, e)
