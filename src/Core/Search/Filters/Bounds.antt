-- ===== src/Core/Search/Filters/Bounds.antt =====
-- The bounds of a request that reach a store.
use localdb.Prelude.{
  ℕ, ◌≡◌, ◌⊎◌, refl, sym, ◌∙◌, ap, inl, inr, Option, none, some, [], ◌∷◌, Bool, true, false, Text,
  ◌==◌, length, Bool-cases, if◌then◌else◌,
}
use localdb.Core.Errors.{Error, Result, ok, err}
use localdb.Core.Dates.{
  is_canonical_timestamp, partial_date_prefix_len, bound_of, parse_date_or_datetime,
}
use localdb.Core.Dates.Stable.{accepted_alone}
use localdb.Core.Search.Filters.{
  Times, Bound, lower, upper, canonical, ceiled_to, ceiled_from, ceil_to_next_second, in_utc,
  rounded, since, ago, not_a_date, date_value, parse_filter_date_value,
}

-- A year, a month or a day of the grammar, or a timestamp as stores keep it.
abbrev pub IsBound : Text → Type 0
IsBound v = (partial_date_prefix_len v ≡ some (length v)) ⊎ (is_canonical_timestamp v ≡ true)

abbrev pub OnOk : {A : Type 0} → (A → Type 0) → Result Error A → Type 0
OnOk Q (err e) = Unit
OnOk Q (ok a) = Q a

abbrev OnSome : (Text → Type 0) → Option Text → Type 0
OnSome Q none = Unit
OnSome Q (some a) = Q a

canonical-IsBound : (v : Text) → OnSome IsBound (canonical v)
unfolding canonical
canonical-IsBound v = elim (Bool-cases (is_canonical_timestamp v)) [
  | inl e ↦ rw (e, canonical) (inr e)
  | inr e ↦ rw (e, canonical) tt
]

bound_of-IsBound :
    (utc : Text → Option Text) (s : Text) (o : Option ℕ)
    → partial_date_prefix_len s ≡ o
    → OnSome IsBound (bound_of utc s o)
unfolding bound_of
bound_of-IsBound utc s none e = tt
bound_of-IsBound utc s (some n) e = elim (Bool-cases (length s == n)) [
  | inl whole ↦
      let (size, prefix) = accepted_alone s n e in
      rw (whole, bound_of) (inl (prefix ∙ ap some (sym size)))
  | inr longer ↦ rw (longer, bound_of) (tail (utc s) (_))
]
  where
    tail :
        (o : Option Text) (b : Bool)
        → OnSome IsBound (
            if b then none else elim o [
              | none ↦ none
              | some normalized ↦
                  if is_canonical_timestamp normalized then some normalized else none
            ])
    tail none true = tt
    tail none false = tt
    tail (some v) true = tt
    tail (some v) false = elim (Bool-cases (is_canonical_timestamp v)) [
      | inl e ↦ rw e (inr e)
      | inr e ↦ rw e tt
    ]

parse_date_or_datetime-IsBound :
    (trim : Text → Text) (utc : Text → Option Text) (raw : Text)
    → OnSome IsBound (parse_date_or_datetime trim utc raw)
unfolding parse_date_or_datetime
parse_date_or_datetime-IsBound trim utc raw = of_trimmed (trim raw)
  where
    of_trimmed :
        (s : Text)
        → OnSome IsBound
            (elim s [ [] ↦ none | x ∷ r ↦ bound_of utc (x ∷ r) (partial_date_prefix_len (x ∷ r)) ])
    of_trimmed [] = tt
    of_trimmed (x ∷ r) = bound_of-IsBound utc (x ∷ r) (partial_date_prefix_len (x ∷ r)) refl

module _ (t : Times) where
  ceil_to_next_second-IsBound : (raw : Text) → OnSome IsBound (ceil_to_next_second t raw)
  unfolding ceil_to_next_second ceiled_from ceiled_to
  ceil_to_next_second-IsBound raw = of_parsed (t.parse_from_rfc3339 (t.trim raw))
    where
      of_next : (o : Option t.Instant) → OnSome IsBound (ceiled_to t o)
      of_next none = tt
      of_next (some ceiled) = canonical-IsBound (t.to_rfc3339_secs ceiled)

      of_parsed : (o : Option t.Instant) → OnSome IsBound (ceiled_from t o)
      of_parsed none = tt
      of_parsed (some utc) = elim (Bool-cases (t.timestamp_subsec_nanos utc == 0)) [
        | inl e ↦ rw (e, ceiled_from) tt
        | inr e ↦ rw (e, ceiled_from) (of_next (t.next_second utc))
      ]

  rounded-IsBound :
      (raw value : Text) (bound : Bound) → IsBound value → IsBound (rounded t raw value bound)
  unfolding rounded
  rounded-IsBound raw value upper b = b
  rounded-IsBound raw value lower b =
      of_ceiled (ceil_to_next_second t raw) (ceil_to_next_second-IsBound raw)
    where
      of_ceiled :
          (o : Option Text)
          → OnSome IsBound o
          → IsBound (elim o [ none ↦ value | some ceiled ↦ ceiled ])
      of_ceiled none c = b
      of_ceiled (some v) c = c

  ago-IsBound : (field raw : Text) (o : Option ℕ) → OnOk IsBound (ago t field raw o)
  unfolding ago since
  ago-IsBound field raw none = tt
  ago-IsBound field raw (some duration) = of_bound (t.checked_sub_signed t.now duration)
    where
      of_bound : (o : Option t.Instant) → OnOk IsBound (since t field raw o)
      of_bound none = tt
      of_bound (some bound) = elim (Bool-cases (is_canonical_timestamp (t.to_rfc3339_secs bound))) [
        | inl e ↦ rw (e, since) (inr e)
        | inr e ↦ rw (e, since) tt
      ]

  pub parse_filter_date_value-IsBound :
      (field raw : Text) (bound : Bound) → OnOk IsBound (parse_filter_date_value t field raw bound)
  unfolding parse_filter_date_value date_value not_a_date
  parse_filter_date_value-IsBound field raw bound =
      of_value (parse_date_or_datetime t.trim (in_utc t) raw)
        (parse_date_or_datetime-IsBound t.trim (in_utc t) raw)
    where
      of_duration : (o : Option ℕ) → OnOk IsBound (not_a_date t field raw o)
      of_duration none = tt
      of_duration (some duration) = ago-IsBound field raw (t.from_std duration)

      of_value :
          (o : Option Text) → OnSome IsBound o → OnOk IsBound (date_value t field raw bound o)
      of_value (some value) b = rounded-IsBound raw value bound b
      of_value none b = of_duration (t.parse_duration raw)
