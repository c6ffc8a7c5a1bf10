-- ===== src/Core/Search/Filters/Conversion.antt =====
-- The filters that a request is converted to.
use mathlib.Core.Path.{subst}
use localdb.Prelude.{
  ℕ, ◌+◌, ◌≡◌, refl, sym, ◌∙◌, ap, Option, none, some, List, [], ◌∷◌, ◌++◌, Bool, not, ◌||◌, Text,
  arith, ltb, length, All, All-append, is_none,
}
use localdb.Core.Errors.{Error, Result, ok, err}
use localdb.Core.Dates.Filters.{
  MetadataFilter, mime, uri_prefix, date_after, date_before, source_id, resource_id, policy_version,
}
use localdb.Core.Search.Filters.{
  Times, SearchFilters, is_any_set, any_some, Bound, lower, upper, parse_filter_date_value,
  push_bound, AxisBounds, axes_of, push_uri, push_mime, push_axis, push_axes, into_metadata_filters,
}
use localdb.Core.Search.Filters.Bounds.{IsBound, OnOk, parse_filter_date_value-IsBound}

-- A filter of which a date is a bound.
abbrev pub Bounded : MetadataFilter → Type 0
Bounded (date_after axis value) = IsBound value
Bounded (date_before axis value) = IsBound value
Bounded (mime m) = Unit
Bounded (uri_prefix p) = Unit
Bounded (source_id id) = Unit
Bounded (resource_id id) = Unit
Bounded (policy_version v) = Unit

abbrev set : Option Text → ℕ
set none = 0
set (some raw) = 1

length-snoc : {A : Type 0} (xs : List A) (x : A) → length (xs ++ (x ∷ [])) ≡ length xs + 1
length-snoc [] x = refl
length-snoc (y ∷ xs) x = omega (arith, length-snoc xs x)

-- What a step of the loop does to the filters.
abbrev Pushed : List MetadataFilter → ℕ → List MetadataFilter → Type 0
Pushed filters n pushed =
    (length pushed ≡ length filters + n) × (All Bounded filters → All Bounded pushed)

module _ (t : Times) where
  push_bound-Pushed :
      (filter : Text → MetadataFilter) (field : Text) (bound : Bound) (o : Option Text)
      (filters : List MetadataFilter)
      → ((v : Text) → IsBound v → Bounded (filter v))
      → OnOk (Pushed filters (set o)) (push_bound t filter field bound o filters)
  unfolding push_bound
  push_bound-Pushed filter field bound none filters f = (omega arith, λ a. a)
  push_bound-Pushed filter field bound (some raw) filters f =
      of_value (parse_filter_date_value t field raw bound)
        (parse_filter_date_value-IsBound t field raw bound)
    where
      of_value :
          (r : Result Error Text)
          → OnOk IsBound r
          → OnOk
              (Pushed filters 1)
              (elim r [ err e ↦ err e | ok value ↦ ok (filters ++ (filter value ∷ [])) ])
      of_value (err e) b = tt
      of_value (ok v) b = (
        length-snoc filters (filter v),
        λ a. All-append Bounded filters (filter v ∷ []) a (f v b, tt),
      )

  push_axis-Pushed :
      (a : AxisBounds) (filters : List MetadataFilter)
      → OnOk (Pushed filters (set a.after + set a.before)) (push_axis t a filters)
  unfolding push_axis
  push_axis-Pushed a filters =
      of_after (push_bound t (date_after a.axis) a.after_field lower a.after filters)
        (push_bound-Pushed (date_after a.axis) a.after_field lower a.after filters (λ v b. b))
    where
      both :
          (mid : List MetadataFilter) (r : Result Error (List MetadataFilter))
          → Pushed filters (set a.after) mid
          → OnOk (Pushed mid (set a.before)) r
          → OnOk (Pushed filters (set a.after + set a.before)) r
      both mid (err e) p q = tt
      both mid (ok end) p q = (omega (arith, p.0, q.0), λ h. q.1 (p.1 h))

      of_after :
          (r : Result Error (List MetadataFilter))
          → OnOk (Pushed filters (set a.after)) r
          → OnOk (Pushed filters (set a.after + set a.before)) (elim r [
            | err e ↦ err e
            | ok pushed ↦ push_bound t (date_before a.axis) a.before_field upper a.before pushed
          ])
      of_after (err e) p = tt
      of_after (ok mid) p =
          both mid (push_bound t (date_before a.axis) a.before_field upper a.before mid) p
            (push_bound-Pushed (date_before a.axis) a.before_field upper a.before mid (λ v b. b))

  sum_of : List AxisBounds → ℕ
  sum_of [] = 0
  sum_of (a ∷ axes) = set a.after + set a.before + sum_of axes

  push_axes-Pushed :
      (axes : List AxisBounds) (filters : List MetadataFilter)
      → OnOk (Pushed filters (sum_of axes)) (push_axes t axes filters)
  unfolding push_axes sum_of
  push_axes-Pushed [] filters = (omega arith, λ a. a)
  push_axes-Pushed (a ∷ axes) filters =
      of_axis (push_axis t a filters) (push_axis-Pushed a filters)
        (λ mid. push_axes-Pushed axes mid)
    where
      both :
          (mid : List MetadataFilter) (r : Result Error (List MetadataFilter))
          → Pushed filters (set a.after + set a.before) mid
          → OnOk (Pushed mid (sum_of axes)) r
          → OnOk (Pushed filters (set a.after + set a.before + sum_of axes)) r
      both mid (err e) p q = tt
      both mid (ok end) p q = (omega (arith, p.0, q.0), λ h. q.1 (p.1 h))

      of_axis :
          (r : Result Error (List MetadataFilter))
          → OnOk (Pushed filters (set a.after + set a.before)) r
          → ((mid : List MetadataFilter) → OnOk (Pushed mid (sum_of axes)) (push_axes t axes mid))
          → OnOk
              (Pushed filters (set a.after + set a.before + sum_of axes))
              (elim r [ err e ↦ err e | ok pushed ↦ push_axes t axes pushed ])
      of_axis (err e) p rest = tt
      of_axis (ok mid) p rest = both mid (push_axes t axes mid) p (rest mid)

  any_set-some :
      (o : Option Text) (b : Bool) (n : ℕ)
      → b ≡ ltb 0 n
      → (not (is_none o) || b) ≡ ltb 0 (set o + n)
  any_set-some none b n e = ground (arith, e)
  any_set-some (some raw) b n e = ground (arith, e)

  -- How many fields are set.
  fields_set : SearchFilters → ℕ
  unfolding sum_of axes_of
  fields_set s = set s.path + set s.mime + sum_of (axes_of s)

  is_any_set-fields_set : (s : SearchFilters) → is_any_set s ≡ ltb 0 (fields_set s)
  unfolding is_any_set any_some fields_set
  is_any_set-fields_set s = ground (
    arith,
    any_set-some s.path,
    any_set-some s.mime,
    any_set-some s.added_after,
    any_set-some s.added_before,
    any_set-some s.updated_after,
    any_set-some s.updated_before,
    any_set-some s.modified_after,
    any_set-some s.modified_before,
    any_set-some s.document_after,
    any_set-some s.document_before,
  )

  first_filters :
      (p m : Option Text)
      → (length (push_mime m (push_uri p)) ≡ set p + set m) × All Bounded (push_mime m (push_uri p))
  unfolding push_mime push_uri
  first_filters none none = (refl, tt)
  first_filters none (some m) = (refl, (tt, tt))
  first_filters (some p) none = (refl, (tt, tt))
  first_filters (some p) (some m) = (refl, (tt, (tt, tt)))

  -- What the conversion makes of a request, if every date of it can be read: there is a filter if and
  -- only if `is_any_set`, and each bound on a date is a year, month or day of the grammar or a
  -- canonical timestamp, whatever the clock, the fraction of a second and the duration, so that stores
  -- can compare it as a text.
  pub into_metadata_filters-Bounded :
      (s : SearchFilters) (filters : List MetadataFilter)
      → into_metadata_filters t s ≡ ok filters
      → (is_any_set s ≡ ltb 0 (length filters)) × All Bounded filters
  unfolding into_metadata_filters fields_set
  into_metadata_filters-Bounded s filters e =
      let start = push_mime s.mime (push_uri s.path) in
      let (size, fine) = first_filters s.path s.mime in
      let (pushed, kept) =
        given (push_axes t (axes_of s) start) e (push_axes-Pushed (axes_of s) start) in
      let all : length filters ≡ fields_set s = pushed ∙ ap (λ n. n + sum_of (axes_of s)) size in
      (is_any_set-fields_set s ∙ ap (ltb 0) (sym all), kept fine)
    where
      given :
          (r : Result Error (List MetadataFilter))
          → r ≡ ok filters
          → OnOk (Pushed (push_mime s.mime (push_uri s.path)) (sum_of (axes_of s))) r
          → Pushed (push_mime s.mime (push_uri s.path)) (sum_of (axes_of s)) filters
      given (err bad) h p = absurd (ground (arith, h))
      given (ok end) h p =
          subst
            (λ (r : Result Error (List MetadataFilter)).
              OnOk (Pushed (push_mime s.mime (push_uri s.path)) (sum_of (axes_of s))) r)
            h p
