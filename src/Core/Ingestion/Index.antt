-- ===== src/Core/Ingestion/Index.antt =====
-- The index of what was indexed before: `DocumentRecord` and `DocumentIndex` of
-- core/src/ingestion/deps.rs, and the policies and results that go with it.
use localdb.Prelude.{ℕ, Option, List, [], ◌∷◌, Text, text_eq, lookup, insert, remove, keep, values}

pub record DocumentRecord : Type 0 where
  pub uri : Text
  pub resource_id : Text
  pub source_id : Text
  pub content_hash : Text
  pub policy_version : Text
  pub metadata_hash : Text
  pub external_etag : Option Text
  pub external_last_modified : Option Text
  pub last_checked_at : Option Text

abbrev pub DocumentIndex : Type 0
DocumentIndex = List (Text × DocumentRecord)

abbrev pub new_index : DocumentIndex
new_index = []

abbrev pub get : Text → DocumentIndex → Option DocumentRecord
get = lookup

abbrev pub upsert : DocumentRecord → DocumentIndex → DocumentIndex
upsert r index = insert r.uri r index

-- `HashMap::remove` answers the record that it takes out.
abbrev pub take_out : Text → DocumentIndex → DocumentIndex × Option DocumentRecord
take_out uri index = (remove uri index, lookup uri index)

abbrev pub uris : DocumentIndex → List Text
uris [] = []
uris ((uri, r) ∷ index) = uri ∷ uris index

abbrev pub for_source : Text → DocumentIndex → List DocumentRecord
for_source source_id index =
    keep (λ (r : DocumentRecord). text_eq r.source_id source_id) (values index)

abbrev collect : List DocumentRecord → DocumentIndex → DocumentIndex
collect [] index = index
collect (r ∷ rs) index = collect rs (upsert r index)

abbrev pub from_records : List DocumentRecord → DocumentIndex
from_records records = collect records new_index

pub data DeletionPolicy : Type 0 where
  retain prune : DeletionPolicy

pub data FetchResult : Type 0 where
  downloaded : List ℕ → Option Text → Option Text → Option Text → Option Text → FetchResult
  not_modified : Option Text → Option Text → FetchResult
  gone blocked : FetchResult
