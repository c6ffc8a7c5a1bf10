-- ===== src/Core/Search/Tests.antt =====
-- The search at concrete inputs: two stores with fixed legs, and numbers for floats.
use Prim.Native.Nat.{compare}
use localdb.Prelude.{
  All, ℕ, ◌+◌, ◌*◌, ◌/◌, ◌≡◌, refl, inl, none, some, List, [], ◌∷◌, Text, codes, true, ◌||◌,
  text_eq,
}
use localdb.Core.Errors.{ok}
use localdb.Core.Store.{ChunkRecord, SearchResult}
use localdb.Core.Dates.{widen_date_upper_bound}
use localdb.Core.Dates.Filters.{
  MetadataFilter, mime, uri_prefix, modified, document_date, date_after, date_before, text_le,
  matches,
}
use localdb.Core.Dates.Filters.Inclusive.{matches-inclusive}
use localdb.Core.Metadata.{Metadata, document}
use localdb.Core.Search.{Floats, FusionKey, rrf_fuse_global}
use localdb.Core.Search.Keys.{entry_key, result_key, has, Distinct, rrf_fuse_global-keys}
use localdb.Core.Search.Ranking.{Strict, goes_first, rrf_fuse_global-Strict}
use localdb.Core.Search.Filters.{Times, SearchFilters, is_any_set, into_metadata_filters}
use localdb.Core.Search.Filters.Conversion.{Bounded, into_metadata_filters-Bounded}
use localdb.Core.Search.Query.{StoreHandle, QueryRequest, query}
use localdb.Core.Search.Query.Provenance.{Gives}
use localdb.Core.Search.Query.Answers.{Answer, query-Answer}

abbrev numbers : Floats
numbers = record {
  zero64 = 0;
  plus64 = λ a b. a + b;
  one64 = 1;
  divide64 = λ a b. 100000 * a / b;
  of_usize = λ n. n;
  widen = λ score. score;
  compare64 = compare;
  compare32 = compare;
}

abbrev untitled : Metadata
untitled = document (record {
  dublin_core = record {
    title = none;
    creator = [];
    subject = [];
    description = none;
    publisher = none;
    contributor = [];
    date = none;
    date_source = none;
    type = none;
    format = none;
    identifier = none;
    source = none;
    language = none;
    relation = [];
    coverage = none;
    rights = none;
  };
  page_count = none;
  word_count = none;
})

abbrev chunk_of : Text → Text → ChunkRecord
chunk_of store chunk = record {
  id = chunk;
  resource_id = codes "r";
  store_id = store;
  text = codes "hi";
  span = record { start = 0; end = 2 };
  heading_path = [];
  embedding = 1 ∷ [];
  policy_version = codes "p";
  fetched_at = codes "2026-01-01T00:00:00Z";
  modified_at = none;
  content_hash = codes "h";
  origin_store = store;
  source_id = codes "src";
  ingestor_kind = codes "file";
  mime = some (codes "text/plain");
  uri = codes "file:///a";
  metadata = untitled;
  block_seq = 0;
  seq_in_block = 0;
  block_kind = none;
  page = none;
  window_block_seqs = [];
  date_original = none;
  date_parsed = none;
  external_id = none;
  external_etag = none;
}

abbrev hit : Text → Text → ℕ → SearchResult
hit store chunk score = record { chunk = chunk_of store chunk; score = score }

abbrev dense_hits : List SearchResult
dense_hits =
    hit (codes "s") (codes "a") 9
    ∷ hit (codes "t") (codes "a") 8
    ∷ hit (codes "s") (codes "b") 7
    ∷ []

abbrev bm25_hits : List SearchResult
bm25_hits = hit (codes "s") (codes "b") 5 ∷ hit (codes "t") (codes "a") 4 ∷ []

rrf_fuse_global-keys_example :
    Distinct entry_key (rrf_fuse_global numbers dense_hits bm25_hits 60)
    × ((k : FusionKey)
        → has entry_key k (rrf_fuse_global numbers dense_hits bm25_hits 60)
          ≡ (has result_key k dense_hits || has result_key k bm25_hits))
rrf_fuse_global-keys_example = rrf_fuse_global-keys numbers dense_hits bm25_hits 60

rrf_fuse_global-Strict_example :
    Strict (goes_first (λ x. x)) (rrf_fuse_global numbers dense_hits bm25_hits 60)
rrf_fuse_global-Strict_example =
    rrf_fuse_global-Strict numbers (λ x. Unit) (λ x. x) 60 tt (λ x rank n. tt) (λ a b p q. refl)
      dense_hits bm25_hits

-- A store whose legs also give a chunk of another store.
abbrev handle_of : Text → Text → StoreHandle (Unit {0})
handle_of id name = record {
  id = id;
  name = name;
  dense_search =
      λ vector k filters w. (w, ok (hit id (codes "a") 9 ∷ hit (codes "x") (codes "a") 9 ∷ []));
  bm25_search = λ query k filters w. (w, ok (hit id (codes "b") 9 ∷ []));
}

abbrev plain_request : QueryRequest
plain_request = record {
  query = codes "hi";
  leg_k = none;
  top_n = some 3;
  filters = mime (codes "text/plain") ∷ [];
}

abbrev two_stores : List (StoreHandle (Unit {0}))
two_stores = handle_of (codes "s") (codes "notes") ∷ handle_of (codes "t") (codes "mail") ∷ []

query-Answer_example :
    Gives
      (Answer (λ c. matches (mime (codes "text/plain")) c ≡ true) two_stores 3)
      (query numbers two_stores (λ docs w. (w, ok (((1 ∷ []) ∷ []) ∷ []))) plain_request tt)
unfolding matches text_eq
query-Answer_example =
    query-Answer (λ c. matches (mime (codes "text/plain")) c ≡ true) numbers two_stores
      (λ docs w. (w, ok (((1 ∷ []) ∷ []) ∷ []))) plain_request tt
      (
        (λ v k w. (refl, (refl, tt)), λ t k w. (refl, tt)),
        ((λ v k w. (refl, (refl, tt)), λ t k w. (refl, tt)), tt),
      )

abbrev dated : ChunkRecord
dated = record (chunk_of (codes "s") (codes "a")) { date_parsed = some (codes "2026-05") }

-- A document of a month, and the year of it as both bounds.
matches-inclusive_example :
    (matches (date_after document_date (codes "2026")) dated
      ≡ text_le (codes "2026") (codes "2026"))
    × (matches (date_before document_date (codes "2026")) dated
        ≡ text_le (codes "2026") (codes "2026"))
unfolding widen_date_upper_bound text_le
matches-inclusive_example =
    matches-inclusive document_date (codes "2026") (codes "2026-05") (codes "2026") (codes "-05")
      (codes "-05-31T23:59:59Z") dated (inl refl) refl refl refl refl refl

-- A clock that is zero, and parsers that read nothing.
abbrev no_times : Times
no_times = record {
  Instant = Unit;
  trim = λ s. s;
  parse_from_rfc3339 = λ s. none;
  to_rfc3339_secs = λ u. [];
  timestamp_subsec_nanos = λ u. 0;
  next_second = λ u. none;
  checked_sub_signed = λ u n. none;
  now = tt;
  parse_duration = λ s. none;
  from_std = λ n. none;
  quoted = λ s. s;
}

abbrev since_june : SearchFilters
since_june = record {
  path = some (codes "file:///");
  mime = none;
  added_after = none;
  added_before = none;
  updated_after = none;
  updated_before = none;
  modified_after = some (codes "2026-06");
  modified_before = none;
  document_after = none;
  document_before = none;
}

abbrev june_filters : List MetadataFilter
june_filters = uri_prefix (codes "file:///") ∷ date_after modified (codes "2026-06") ∷ []

into_metadata_filters-Bounded_example : (is_any_set since_june ≡ true) × All Bounded june_filters
unfolding into_metadata_filters
into_metadata_filters-Bounded_example =
    into_metadata_filters-Bounded no_times since_june june_filters refl
