-- ===== src/Server/Scheduler/Due.antt =====
-- Which sources a tick finds due, and what the sections leave of the records.
use localdb.Prelude.{
  ℕ, ◌≡◌, refl, inl, inr, Bool, false, ◌||◌, Option, none, some, List, [], ◌∷◌, Text, text_eq,
  text_eq_iff, lookup, insert, remove, values, keep, Unique, insert-Unique, remove-Unique,
  lookup-insert, lookup-has_key, if◌then◌else◌, arith, Option-cases,
}
use localdb.Server.Scheduler.{
  UrlRefreshRecord, Records, is_due, register, unregister, due_records, update_record, new_record,
}

-- Each record stands under its own id.
abbrev pub Keyed : Records → Type 0
Keyed [] = Unit
Keyed ((k, r) ∷ m) = (r.source_id ≡ k) × Keyed m

abbrev pub Wf : Records → Type 0
Wf m = Unique m × Keyed m

abbrev pub named : Text → List UrlRefreshRecord → Bool
named i [] = false
named i (r ∷ rs) = text_eq r.source_id i || named i rs

abbrev pub DistinctIds : List UrlRefreshRecord → Type 0
DistinctIds [] = Unit
DistinctIds (r ∷ rs) = (named r.source_id rs ≡ false) × DistinctIds rs

abbrev pub holds : (UrlRefreshRecord → Bool) → Option UrlRefreshRecord → Bool
holds p none = false
holds p (some r) = p r

insert-Keyed :
    (k : Text) (r : UrlRefreshRecord) (m : Records)
    → r.source_id ≡ k
    → Keyed m
    → Keyed (insert k r m)
unfolding insert
insert-Keyed k r [] e w = (e, tt)
insert-Keyed k r ((j, q) ∷ m) e w = ground (arith, insert-Keyed k r m)

remove-Keyed : (k : Text) (m : Records) → Keyed m → Keyed (remove k m)
unfolding remove
remove-Keyed k [] w = tt
remove-Keyed k ((j, q) ∷ m) w = ground (arith, remove-Keyed k m)

lookup-Keyed :
    (k : Text) (r : UrlRefreshRecord) (m : Records)
    → Keyed m
    → lookup k m ≡ some r
    → r.source_id ≡ k
unfolding lookup
lookup-Keyed k r [] w e = cc
lookup-Keyed k r ((j, q) ∷ m) w e = ground (arith, text_eq_iff j k, lookup-Keyed k r m)

pub named-keep :
    (p : UrlRefreshRecord → Bool) (i : Text) (m : Records)
    → Unique m
    → Keyed m
    → named i (keep p (values m)) ≡ holds p (lookup i m)
unfolding lookup
named-keep p i [] u w = refl
named-keep p i ((j, q) ∷ m) u w =
    ground (arith, text_eq_iff j i, lookup-has_key i m, named-keep p i m)

keep-DistinctIds :
    (p : UrlRefreshRecord → Bool) (m : Records)
    → Unique m
    → Keyed m
    → DistinctIds (keep p (values m))
keep-DistinctIds p [] u w = tt
keep-DistinctIds p ((j, q) ∷ m) u w =
    ground (arith, lookup-has_key j m, named-keep p j m, keep-DistinctIds p m)

pub due_records-DistinctIds : (now : ℕ) (m : Records) → Wf m → DistinctIds (due_records now m)
unfolding due_records
due_records-DistinctIds now m w = keep-DistinctIds (is_due now) m w.0 w.1

pub named-due_records :
    (now : ℕ) (i : Text) (m : Records)
    → Wf m
    → named i (due_records now m) ≡ holds (is_due now) (lookup i m)
unfolding due_records
named-due_records now i m w = named-keep (is_due now) i m w.0 w.1

pub register-Wf :
    (i store url : Text) (secs : Option ℕ) (m : Records) → Wf m → Wf (register i store url secs m)
unfolding register
register-Wf i store url secs m w =
    (insert-Unique i _ m w.0, insert-Keyed i (new_record i store url secs) m refl w.1)

pub unregister-Wf : (i : Text) (m : Records) → Wf m → Wf (unregister i m)
unfolding unregister
unregister-Wf i m w = (remove-Unique i m w.0, remove-Keyed i m w.1)

abbrev pub changed :
    (UrlRefreshRecord → UrlRefreshRecord) → Option UrlRefreshRecord → Option UrlRefreshRecord
changed change none = none
changed change (some r) = some (change r)

module _ (change : UrlRefreshRecord → UrlRefreshRecord) (i : Text) (m : Records) where
  pub lookup-update_record :
      (k : Text)
      → lookup k (update_record change i m)
        ≡ (if text_eq i k then changed change (lookup k m) else lookup k m)
  unfolding update_record
  lookup-update_record k = elim (Option-cases (lookup i m)) [
    | inl e ↦ rw (e, update_record) (ground (arith, text_eq_iff i k))
    | inr (r, e) ↦
        rw (e, update_record) (ground (arith, text_eq_iff i k, lookup-insert i k (change r) m))
  ]

  pub update_record-Wf :
      ((r : UrlRefreshRecord) → (change r).source_id ≡ r.source_id)
      → Wf m
      → Wf (update_record change i m)
  unfolding update_record
  update_record-Wf same w = elim (Option-cases (lookup i m)) [
    | inl e ↦ rw (e, update_record) w
    | inr (r, e) ↦
        rw (e, update_record)
          (
            insert-Unique i (change r) m w.0,
            insert-Keyed i (change r) m (ground (arith, same r, lookup-Keyed i r m w.1)) w.1,
          )
  ]
