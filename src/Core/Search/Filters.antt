-- ===== src/Core/Search/Filters.antt =====
-- The filters of a search request: core/src/search_filters.rs. What chrono and humantime do is a
-- parameter.
pub mod Bounds
pub mod Conversion
use localdb.Prelude.{
  ℕ, ◌+◌, ◌-◌, ◌*◌, ◌%◌, ◌^◌, Option, none, some, List, [], ◌∷◌, ◌++◌, Bool, true, false, not, ◌||◌,
  Text, codes, leb, ◌==◌, is_none, map_option, if◌then◌else◌,
}
use localdb.Core.Errors.{Error, Result, ok, err, invalid_request}
use localdb.Core.Dates.{is_canonical_timestamp, parse_date_or_datetime}
use localdb.Core.Dates.Filters.{
  DateAxis, added, updated, modified, document_date, MetadataFilter, mime, uri_prefix, date_after,
  date_before,
}

pub record Times : Type 1 where
  -- `DateTime<Utc>`.
  pub Instant : Type 0
  pub trim : Text → Text
  -- `DateTime::parse_from_rfc3339`, moved to UTC.
  pub parse_from_rfc3339 : Text → Option Instant
  -- `to_rfc3339_opts(SecondsFormat::Secs, true)`.
  pub to_rfc3339_secs : Instant → Text
  pub timestamp_subsec_nanos : Instant → ℕ
  -- `checked_add_signed` of a second, and `checked_sub_signed` of nanoseconds.
  pub next_second : Instant → Option Instant
  pub checked_sub_signed : Instant → ℕ → Option Instant
  pub now : Instant
  -- `humantime::parse_duration`, in nanoseconds, and `Duration::from_std`.
  pub parse_duration : Text → Option ℕ
  pub from_std : ℕ → Option ℕ
  -- `{raw:?}`.
  pub quoted : Text → Text

pub record SearchFilters : Type 0 where
  pub path : Option Text
  pub mime : Option Text
  pub added_after : Option Text
  pub added_before : Option Text
  pub updated_after : Option Text
  pub updated_before : Option Text
  pub modified_after : Option Text
  pub modified_before : Option Text
  pub document_after : Option Text
  pub document_before : Option Text

unfoldable pub any_some : List (Option Text) → Bool
any_some [] = false
any_some (o ∷ os) = not (is_none o) || any_some os

unfoldable pub is_any_set : SearchFilters → Bool
unfolding any_some
is_any_set s = any_some (
    s.path ∷ s.mime ∷ s.added_after ∷ s.added_before ∷ s.updated_after ∷ s.updated_before
    ∷ s.modified_after ∷ s.modified_before ∷ s.document_after ∷ s.document_before ∷ [])

pub data Bound : Type 0 where
  lower upper : Bound

unfoldable pub canonical : Text → Option Text
unfolding is_canonical_timestamp
canonical formatted = if is_canonical_timestamp formatted then some formatted else none

module _ (t : Times) where
  unfoldable pub ceiled_to : Option t.Instant → Option Text
  unfolding canonical
  ceiled_to none = none
  ceiled_to (some ceiled) = canonical (t.to_rfc3339_secs ceiled)

  unfoldable pub ceiled_from : Option t.Instant → Option Text
  unfolding ceiled_to
  ceiled_from none = none
  ceiled_from (some utc) =
      if t.timestamp_subsec_nanos utc == 0 then none else ceiled_to (t.next_second utc)

  unfoldable pub ceil_to_next_second : Text → Option Text
  unfolding ceiled_from
  ceil_to_next_second raw = ceiled_from (t.parse_from_rfc3339 (t.trim raw))

  abbrev pub in_utc : Text → Option Text
  in_utc s = map_option t.to_rfc3339_secs (t.parse_from_rfc3339 s)

  unfoldable pub rounded : Text → Text → Bound → Text
  unfolding ceil_to_next_second
  rounded raw value upper = value
  rounded raw value lower = elim (ceil_to_next_second raw) [ none ↦ value | some ceiled ↦ ceiled ]

  unfoldable pub out_of_range : Text → Text → Error
  out_of_range field raw =
      invalid_request (field ++ codes ": duration out of range: " ++ t.quoted raw)

  -- A bound that was subtracted, and rendered.
  unfoldable pub since : Text → Text → Option t.Instant → Result Error Text
  unfolding out_of_range is_canonical_timestamp
  since field raw none = err (out_of_range field raw)
  since field raw (some bound) =
      if is_canonical_timestamp (t.to_rfc3339_secs bound)
      then ok (t.to_rfc3339_secs bound)
      else err (out_of_range field raw)

  unfoldable pub ago : Text → Text → Option ℕ → Result Error Text
  unfolding out_of_range since
  ago field raw none = err (out_of_range field raw)
  ago field raw (some duration) = since field raw (t.checked_sub_signed t.now duration)

  unfoldable pub not_a_date : Text → Text → Option ℕ → Result Error Text
  unfolding ago
  not_a_date field raw (some duration) = ago field raw (t.from_std duration)
  not_a_date field raw none = err (
      invalid_request (
        field
        ++ codes
            ": not a valid date (YYYY, YYYY-MM, YYYY-MM-DD), datetime (RFC 3339), or relative duration (e.g. \"7d\"): "
        ++ t.quoted raw))

  unfoldable pub date_value : Text → Text → Bound → Option Text → Result Error Text
  unfolding rounded not_a_date
  date_value field raw bound (some value) = ok (rounded raw value bound)
  date_value field raw bound none = not_a_date field raw (t.parse_duration raw)

  unfoldable pub parse_filter_date_value : Text → Text → Bound → Result Error Text
  unfolding date_value parse_date_or_datetime
  parse_filter_date_value field raw bound =
      date_value field raw bound (parse_date_or_datetime t.trim in_utc raw)

  unfoldable pub push_bound :
      (Text → MetadataFilter)
      → Text
      → Bound
      → Option Text
      → List MetadataFilter
      → Result Error (List MetadataFilter)
  unfolding parse_filter_date_value
  push_bound filter field bound none filters = ok filters
  push_bound filter field bound (some raw) filters =
      elim (parse_filter_date_value field raw bound) [
        | err e ↦ err e
        | ok value ↦ ok (filters ++ (filter value ∷ []))
      ]

-- One axis of the loop.
pub record AxisBounds : Type 0 where
  pub axis : DateAxis
  pub after_field : Text
  pub after : Option Text
  pub before_field : Text
  pub before : Option Text

unfoldable pub axes_of : SearchFilters → List AxisBounds
axes_of s =
    record {
      axis = added;
      after_field = codes "added_after";
      after = s.added_after;
      before_field = codes "added_before";
      before = s.added_before;
    }
    ∷ record {
      axis = updated;
      after_field = codes "updated_after";
      after = s.updated_after;
      before_field = codes "updated_before";
      before = s.updated_before;
    }
    ∷ record {
      axis = modified;
      after_field = codes "modified_after";
      after = s.modified_after;
      before_field = codes "modified_before";
      before = s.modified_before;
    }
    ∷ record {
      axis = document_date;
      after_field = codes "document_after";
      after = s.document_after;
      before_field = codes "document_before";
      before = s.document_before;
    }
    ∷ []

unfoldable pub push_uri : Option Text → List MetadataFilter
push_uri none = []
push_uri (some p) = uri_prefix p ∷ []

unfoldable pub push_mime : Option Text → List MetadataFilter → List MetadataFilter
push_mime none filters = filters
push_mime (some m) filters = filters ++ (mime m ∷ [])

module _ (t : Times) where
  unfoldable pub push_axis : AxisBounds → List MetadataFilter → Result Error (List MetadataFilter)
  unfolding push_bound
  push_axis a filters =
      elim (push_bound t (date_after a.axis) a.after_field lower a.after filters) [
        | err e ↦ err e
        | ok pushed ↦ push_bound t (date_before a.axis) a.before_field upper a.before pushed
      ]

  -- The loop over the axes, which ends at the first error.
  unfoldable pub push_axes :
      List AxisBounds → List MetadataFilter → Result Error (List MetadataFilter)
  unfolding push_axis
  push_axes [] filters = ok filters
  push_axes (a ∷ axes) filters =
      let rest = push_axes axes in
      elim (push_axis a filters) [ err e ↦ err e | ok pushed ↦ rest pushed ]

  unfoldable pub into_metadata_filters : SearchFilters → Result Error (List MetadataFilter)
  unfolding push_axes axes_of push_uri push_mime
  into_metadata_filters s = push_axes (axes_of s) (push_mime s.mime (push_uri s.path))
