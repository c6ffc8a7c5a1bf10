-- ===== src/Core/Dates/Filters.antt =====
-- The metadata filters of core/src/store.rs: `DateAxis`, `MetadataFilter` and `matches`.
pub mod Inclusive
use localdb.Prelude.{
  Option, none, some, List, [], ◌∷◌, Bool, true, false, not, Text, codes, text_eq, text_lt,
  option_eq, if◌then◌else◌,
}
use localdb.Core.Store.{ChunkRecord}
use localdb.Core.Chunking.{starts_with}
use localdb.Core.Dates.{widen_date_upper_bound}

pub data DateAxis : Type 0 where
  added updated modified document_date : DateAxis

abbrev pub name : DateAxis → Text
name added = codes "added"
name updated = codes "updated"
name modified = codes "modified"
name document_date = codes "document"

abbrev pub column : DateAxis → Text
column added = codes "added_at"
column updated = codes "index_updated_at"
column modified = codes "modified_at"
column document_date = codes "date_parsed"

abbrev pub value_of : DateAxis → ChunkRecord → Option Text
value_of added r = some r.fetched_at
value_of updated r = none
value_of modified r = r.modified_at
value_of document_date r = r.date_parsed

pub data MetadataFilter : Type 0 where
  mime uri_prefix : Text → MetadataFilter
  date_after date_before : DateAxis → Text → MetadataFilter
  source_id resource_id policy_version : Text → MetadataFilter

-- `a <= b` on `str`.
unfoldable pub text_le : Text → Text → Bool
unfolding text_lt
text_le a b = not (text_lt b a)

unfoldable pub is_after : Text → Option Text → Bool
unfolding text_le
is_after value none = false
is_after value (some v) = text_le value v

unfoldable pub is_before : DateAxis → Text → Option Text → Bool
unfolding text_le widen_date_upper_bound
is_before axis value none = false
is_before document_date value (some v) =
    text_le (widen_date_upper_bound v) (widen_date_upper_bound value)
is_before added value (some v) = text_le v (widen_date_upper_bound value)
is_before updated value (some v) = text_le v (widen_date_upper_bound value)
is_before modified value (some v) = text_le v (widen_date_upper_bound value)

unfoldable pub matches : MetadataFilter → ChunkRecord → Bool
unfolding text_eq is_after is_before
matches (mime t) r = option_eq text_eq r.mime (some t)
matches (uri_prefix prefix) r = starts_with prefix r.uri
matches (date_after axis value) r = is_after value (value_of axis r)
matches (date_before axis value) r = is_before axis value (value_of axis r)
matches (source_id id) r = text_eq r.source_id id
matches (resource_id id) r = text_eq r.resource_id id
matches (policy_version v) r = text_eq r.policy_version v
