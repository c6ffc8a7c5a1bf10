-- ===== src/Core/Ingestion/Tests.antt =====
-- The pipeline at concrete inputs: a store that is the list of its ids, an embedder with one vector
-- for each chunk, and origins that answer as their URI says.
use mathlib.Core.Path.{subst}
use localdb.Prelude.{
  ℕ, ◌+◌, ◌*◌, ◌≤◌, ◌≡◌, ◌≢◌, refl, none, some, List, [], ◌∷◌, map, ◌++◌, true, false, Text, codes,
  text_eq, contains, contains-delete, text_eq_iff, Bool-cases, delete, lookup, length, arith, All,
}
use localdb.Core.Errors.{ok}
use localdb.Core.Metadata.{DublinCoreMetadata, Metadata, document}
use localdb.Core.Ids.Fields.{compute_metadata_hash-injective}
use localdb.Core.Resource.{
  Resource, file, Source, document_kind, path, feed_spec, path_kind, feed_kind,
}
use localdb.Core.Store.{ResourceRecord, StaleFeedResource}
use localdb.Core.Chunking.{prose_config}
use localdb.Core.Ingestion.Services.{Services, ChunkOutput, DocumentChunks, returned}
use localdb.Core.Ingestion.Index.{DocumentIndex, DocumentRecord, get, retain, prune, not_modified}
use localdb.Core.Ingestion.Pipeline.{IngestionConfig, index_resource, chunk_outputs}
use localdb.Core.Ingestion.Sweep.{complete, remove_documents}
use localdb.Core.Ingestion.Sweep.Safety.{may_remove, remove_documents-keeps}
use localdb.Core.Ingestion.Sweep.Preview.{remove_documents-preview}
use localdb.Core.Ingestion.Pipeline.Safety.{Unwritten, index_resource-Unwritten}
use localdb.Core.Ingestion.Pipeline.Written.{Wrote, index_resource-written}
use localdb.Core.Ingestion.Callback.Documents.{on_resource_impl}
use localdb.Core.Ingestion.Callback.Again.{on_resource_impl-again}
use localdb.Core.Ingestion.Callback.Gate.{Claim, recheck_is_due}
use localdb.Core.Ingestion.Callback.Freshness.{IsFresh, recheck_is_due-IsFresh}
use localdb.Core.Ingestion.Callback.Counters.{settled, Told}
use localdb.Core.Ingestion.Recheck.{recheck_floor_start, i64_max}
use localdb.Core.Ingestion.Recheck.Floor.{recheck_floor_start-le}
use localdb.Core.Ingestion.Liveness.{run_feed_liveness_sweep}
use localdb.Core.Ingestion.Liveness.Probes.{
  Alive, run_feed_liveness_sweep-checked, run_feed_liveness_sweep-keeps,
}
use localdb.Core.Ingestion.Run.{Call, resource, skipped_call, perform_calls}
use localdb.Core.Ingestion.Run.Accounting.{perform_calls-account}
use localdb.Core.Ingestion.Callback.{Context, PipelineCallback, no_result, unchanged, one_skipped}

abbrev no_dublin_core : DublinCoreMetadata
no_dublin_core = record {
  title = none;
  creator = [];
  subject = [];
  description = none;
  publisher = none;
  contributor = [];
  date = none;
  date_source = none;
  type = none;
  format = none;
  identifier = none;
  source = none;
  language = none;
  relation = [];
  coverage = none;
  rights = none;
}

abbrev no_metadata : Metadata
no_metadata =
    document (record { dublin_core = no_dublin_core; page_count = none; word_count = none })

abbrev one_chunk : ChunkOutput
one_chunk = record {
  id = codes "c";
  text = codes "hi";
  span = record { start = 0; end = 2 };
  heading_path = [];
  block_seq = 0;
  seq_in_block = 0;
  window_block_seqs = [];
  block_kind = none;
}

abbrev stored_row : ResourceRecord
stored_row = record {
  metadata = no_metadata;
  external_id = none;
  external_etag = none;
  external_last_modified = none;
  modified_at = none;
  date_original = none;
  date_parsed = none;
}

abbrev services : Services (List Text)
services = record {
  delete_by_resource = λ id w. (delete id w, ok 1);
  upsert_chunks_and_blocks =
      λ store id records blocks old modified w. (id ∷ w, ok (length records));
  update_resource_metadata = λ store id row w. (w, ok tt);
  get_resource_record = λ store id w. (w, ok (some stored_row));
  touch_resource_checked = λ store id w. (w, ok tt);
  touch_resource_liveness = λ store id etag modified w. (w, ok tt);
  list_stale_feed_resources = λ store source before n w. (
    w,
    ok (
        record {
          resource_id = codes "a";
          uri = codes "https://a";
          external_etag = none;
          external_last_modified = none;
        }
        ∷ []),
  );
  has_token_counter = true;
  embed_documents =
      λ docs w. (w, ok (map (λ (d : DocumentChunks). map (λ (t : Text). 1 ∷ []) d.chunks) docs));
  fetch = λ uri meta w. (w, ok (not_modified none none));
  now_rfc3339 = λ w. (w, codes "2026");
  utc_now = λ w. (w, 100_000_000);
  to_rfc3339 = λ n. codes "2025";
  chunk_blocks = λ id blocks config tokens. returned (ok (one_chunk ∷ []));
  hashes = record { blake3_hex = λ bytes. bytes; metadata_json = λ m. codes "{}" };
  parse_partial_iso8601 = λ t. none;
  last_path_segment = λ uri. none;
  parse_uri = λ uri. some uri;
  shuffle = λ rs. rs;
  to_lowercase = λ t. t;
  spec_to_value = λ spec. ok (codes "{}");
}

abbrev config : IngestionConfig
config = record { store_id = codes "s"; policy_version = codes "p"; chunker = prose_config }

abbrev files : Source
files = record {
  id = codes "src";
  store_id = codes "s";
  kind = path_kind;
  spec = path (codes "/r") [] [];
  source_preset = codes "prose";
}

abbrev on_files : Context
on_files = record { source = files; config = config; refetch = false }

abbrev on_feed : Context
on_feed = record {
  source = record files { kind = feed_kind; spec = feed_spec (codes "https://f") none true none };
  config = config;
  refetch = false;
}

abbrev a_record : Text → Text → DocumentRecord
a_record uri id = record {
  uri = uri;
  resource_id = id;
  source_id = codes "src";
  content_hash = codes "h";
  policy_version = codes "p";
  metadata_hash = codes "{}" ++ 0 ∷ 0 ∷ 0 ∷ [];
  external_etag = none;
  external_last_modified = none;
  last_checked_at = some (codes "2026");
}

abbrev two_documents : DocumentIndex
two_documents =
    (codes "ua", a_record (codes "ua") (codes "a"))
    ∷ (codes "ub", a_record (codes "ub") (codes "b"))
    ∷ []

-- After an ingestor that met `ua` and nothing else.
abbrev met_a : PipelineCallback (List Text)
met_a = record {
  doc_index = two_documents;
  result = no_result;
  seen = codes "ua" ∷ [];
  gone = [];
  discovered_total = 0;
  next_index = 0;
  skip_error_count = 0;
  progress = some [];
  world = codes "a" ∷ codes "b" ∷ [];
}

abbrev fresh_run : PipelineCallback (List Text)
fresh_run = record met_a { seen = []; doc_index = [] }

abbrev a_resource : Resource
a_resource = record {
  id = codes "a";
  store_id = codes "s";
  source_id = codes "src";
  ingestor_kind = file;
  resource_kind = document_kind;
  uri = codes "ua";
  external_id = none;
  external_etag = none;
  external_last_modified = none;
  content_hash = codes "h";
  title = none;
  mime = none;
  metadata = no_metadata;
  added_at = codes "2026";
  modified_at = none;
  thread_id = none;
  channel = none;
  participants = [];
  origin_store = codes "s";
  policy_version = codes "p";
  share_path = none;
  extractor_version = codes "1";
  blocks = [];
}

-- The store holds the id.
abbrev Holds : Text → List Text → Type 0
Holds id w = contains id w ≡ true

Holds-delete : (r x : Text) (w : List Text) → x ≢ r → Holds r w → Holds r (delete x w)
Holds-delete r x w ne h = ground (arith, contains-delete x r w, text_eq_iff x r)

only_a :
    (uri : Text) (d : DocumentRecord)
    → get uri two_documents ≡ some d
    → d.resource_id ≡ codes "a"
    → codes "ua" ≡ uri
unfolding lookup
only_a uri d e a =
    ground (arith, e, a, text_eq_iff (codes "ua") uri, Bool-cases (text_eq (codes "ub") uri))

a_stays :
    (uri : Text) (d : DocumentRecord)
    → get uri two_documents ≡ some d
    → d.resource_id ≡ codes "a"
    → may_remove on_files complete met_a uri d ≡ false
unfolding may_remove contains text_eq
a_stays uri d e a =
    subst (λ u. may_remove on_files complete met_a u d ≡ false) (only_a uri d e a) (ground arith)

remove_documents-keeps_example :
    Holds (codes "a") (remove_documents services on_files prune complete met_a).0.world
unfolding contains text_eq
remove_documents-keeps_example =
    remove_documents-keeps services on_files (Holds (codes "a")) (codes "a")
      (Holds-delete (codes "a")) prune complete met_a refl a_stays refl

remove_documents-preview_example :
    let pruned = remove_documents services on_files prune complete met_a in
    let retained = remove_documents services on_files retain complete met_a in
    (pruned.1 ≡ ok tt)
    × (retained.0.doc_index ≡ two_documents)
    × (length pruned.0.doc_index + retained.0.result.docs_prunable ≡ 2)
unfolding contains text_eq
remove_documents-preview_example =
    remove_documents-preview services on_files (λ id w. (1, refl)) complete met_a refl
      (refl, (refl, tt)) tt (λ uri h. ground (arith, h))

-- An embedder that answers nothing.
abbrev mute : Services (List Text)
mute = record services { embed_documents = λ docs w. (w, ok []) }

index_resource-Unwritten_example :
    Unwritten
      (Holds (codes "b"))
      (index_resource mute config a_resource files none (codes "b" ∷ []))
unfolding contains text_eq
index_resource-Unwritten_example =
    index_resource-Unwritten mute config a_resource files none (Holds (codes "b")) (λ docs w p. p)
      (λ id records blocks old modified w e h p. absurd (ground (arith, h))) (codes "b" ∷ []) refl

index_resource-written_example :
    Wrote services config a_resource none 1
      (codes "{}" ++ 0 ∷ 0 ∷ 0 ∷ [])
      (chunk_outputs services config files a_resource)
      []
      (index_resource services config a_resource files none []).0
unfolding index_resource
index_resource-written_example =
    index_resource-written services config a_resource none files [] 1 (codes "{}" ++ 0 ∷ 0 ∷ 0 ∷ [])
      refl

on_resource_impl-again_example :
    let once = on_resource_impl services on_files a_resource true fresh_run in
    (on_resource_impl services on_files a_resource true once).result
    ≡ one_skipped (record once.result { docs_seen = once.result.docs_seen + 1 })
unfolding on_resource_impl lookup
on_resource_impl-again_example =
    on_resource_impl-again services on_files a_resource true true fresh_run refl

abbrev no_claim : Claim
no_claim = record {
  enrichment = record {
    title_fallback = none;
    creator = [];
    date = none;
    date_source = none;
    provenance_source = none;
  };
  external_id = none;
  modified_at = none;
}

recheck_is_due-IsFresh_example :
    (d : DocumentRecord) × (get (codes "ua") two_documents ≡ some d)
    × IsFresh services on_feed d no_claim met_a.world
unfolding recheck_is_due lookup
recheck_is_due-IsFresh_example =
    recheck_is_due-IsFresh services on_feed (codes "ua") no_claim met_a refl

run_feed_liveness_sweep-checked_example :
    (run_feed_liveness_sweep services on_feed none met_a).0.result.feed_entries_liveness_checked
    ≤ 0 + 25
run_feed_liveness_sweep-checked_example =
    run_feed_liveness_sweep-checked services on_feed none met_a

a-Alive : Alive services on_feed (Holds (codes "a")) (codes "a") (codes "https://a")
a-Alive = record {
  clock = λ w p. p;
  lists = λ a b t n w p. p;
  fetches = λ v m w p. p;
  touches = λ a id t m w p. p;
  deletes = λ id w ne p. Holds-delete (codes "a") id w ne p;
  placed = λ a b t n w listed e. placed_of listed e;
  answers = λ m w h. ground (arith, h);
}
  where
    placed_of :
        (listed : List StaleFeedResource)
        → (services.list_stale_feed_resources [] [] [] 0 []).1 ≡ ok listed
        → All
            (λ (x : StaleFeedResource). x.resource_id ≡ codes "a" → x.uri ≡ codes "https://a")
            listed
    placed_of [] e = tt
    placed_of (x ∷ []) e = (λ h. ground (arith, e), tt)
    placed_of (x ∷ y ∷ rest) e = absurd (ground (arith, e))

run_feed_liveness_sweep-keeps_example :
    Holds (codes "a") (run_feed_liveness_sweep services on_feed none met_a).0.world
unfolding contains text_eq
run_feed_liveness_sweep-keeps_example =
    run_feed_liveness_sweep-keeps services on_feed (Holds (codes "a")) (codes "a")
      (codes "https://a") a-Alive none met_a refl

abbrev two_reports : List Call
two_reports = resource a_resource ∷ skipped_call (codes "ub") unchanged ∷ []

perform_calls-account_example :
    let end = perform_calls services on_files two_reports fresh_run in
    (end.result.docs_seen ≡ 2)
    × (settled end.result ≡ 2)
    × (end.next_index ≡ 2)
    × Told end.progress 2 2
perform_calls-account_example =
    perform_calls-account services on_files two_reports fresh_run refl refl (refl, refl)

compute_metadata_hash-injective_example :
    (services.hashes.metadata_json no_metadata ≡ services.hashes.metadata_json no_metadata)
    × (some (codes "x") ≡ some (codes "x"))
    × (no_dublin_core.title ≡ no_dublin_core.title)
    × (some (codes "") ≡ some (codes ""))
compute_metadata_hash-injective_example =
    compute_metadata_hash-injective services.hashes (λ s t e. e)
      (λ m. (omega arith, (omega arith, tt))) no_metadata no_metadata (some (codes "x"))
      (some (codes "x")) none none (some (codes "")) (some (codes "")) (omega arith, tt)
      (omega arith, tt) tt tt refl

recheck_floor_start-le_example :
    (recheck_floor_start 100_000_000 none ≤ 100_000_000)
    × ((86_400_000 ≤ 100_000_000 → recheck_floor_start 100_000_000 none + 86_400_000 ≤ 100_000_000)
        × ((secs : ℕ)
            → none ≡ some secs
            → secs * 1000 ≤ i64_max
            → secs * 1000 ≤ 100_000_000
            → recheck_floor_start 100_000_000 none + secs * 1000 ≤ 100_000_000))
recheck_floor_start-le_example = recheck_floor_start-le 100_000_000 none
