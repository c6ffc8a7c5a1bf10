-- ===== src/Core/Search.antt =====
-- The query orchestrator: core/src/search.rs. A float is its bit pattern, and the arithmetic on
-- floats is a parameter. A sort is a stable insertion sort.
pub mod Query
pub mod Keys
pub mod Order
pub mod Ranking
pub mod Filters
mod Tests
use Prim.Native.Nat.{Ordering}
use localdb.Prelude.{
  ℕ, ◌+◌, min, Option, none, some, List, [], ◌∷◌, Bool, true, false, ◌&&◌, ◌||◌, Text, text_eq,
  text_lt, if◌then◌else◌,
}
use localdb.Core.Store.{ChunkRecord, SearchResult}

abbrev pub default_leg_k : ℕ
default_leg_k = 50

abbrev pub default_top_n : ℕ
default_top_n = 10

abbrev pub search_max_limit : ℕ
search_max_limit = 100

abbrev pub clamp_search_limit : ℕ → ℕ
clamp_search_limit limit = min limit search_max_limit

-- What the search does with `f64`s and `f32`s.
pub record Floats : Type 0 where
  pub zero64 : ℕ
  pub one64 : ℕ
  pub plus64 : ℕ → ℕ → ℕ
  pub divide64 : ℕ → ℕ → ℕ
  -- `n as f64`, of a `usize`.
  pub of_usize : ℕ → ℕ
  -- `score as f64`, of an `f32`.
  pub widen : ℕ → ℕ
  -- `partial_cmp(..).unwrap_or(Equal)`, of `f64`s and of `f32`s.
  pub compare64 : ℕ → ℕ → Ordering
  pub compare32 : ℕ → ℕ → Ordering

-- `RRF_K` is `60.0`.
abbrev pub rrf_k : Floats → ℕ
rrf_k f = f.of_usize 60

abbrev pub rrf_score : Floats → ℕ → ℕ → ℕ
rrf_score f rank k = f.divide64 f.one64 (f.plus64 (f.plus64 k (f.of_usize rank)) f.one64)

pub record FusedChunkEntry : Type 0 where
  pub chunk : ChunkRecord
  pub fused_score : ℕ
  pub dense_score : Option ℕ
  pub bm25_score : Option ℕ

pub data Leg : Type 0 where
  dense_leg bm25_leg : Leg

abbrev pub FusionKey : Type 0
FusionKey = Text × Text

abbrev pub fusion_key : ChunkRecord → FusionKey
fusion_key chunk = (chunk.store_id, chunk.id)

unfoldable pub key_eq : FusionKey → FusionKey → Bool
unfolding text_eq
key_eq (s, c) (t, d) = text_eq s t && text_eq c d

-- The store id and then the chunk id, ascending.
unfoldable pub key_lt : FusionKey → FusionKey → Bool
unfolding text_eq text_lt
key_lt (s, c) (t, d) = text_lt s t || (text_eq s t && text_lt c d)

-- `a` stands before `b`, strictly, where the scores compare as given: `b`'s score to `a`'s.
unfoldable pub before : Ordering → FusionKey → FusionKey → Bool
unfolding key_lt
before Ordering.lt k l = true
before Ordering.eq k l = key_lt k l
before Ordering.gt k l = false

module _ {A : Type 0} (less : A → A → Bool) where
  -- `sort_by`, of which the comparison is read through `less`: an element goes before the first that
  -- it is less than, and so after its equals.
  unfoldable pub insert_sorted : A → List A → List A
  insert_sorted x [] = x ∷ []
  insert_sorted x (y ∷ ys) =
      let rest = insert_sorted x ys in if less x y then x ∷ y ∷ ys else y ∷ rest

  insert_each : List A → List A → List A
  unfolding insert_sorted
  insert_each [] sorted = sorted
  insert_each (x ∷ xs) sorted = insert_each xs (insert_sorted x sorted)

  unfoldable pub sort_by : List A → List A
  unfolding insert_each
  sort_by xs = insert_each xs []

module _ (f : Floats) where
  new_entry : ChunkRecord → FusedChunkEntry
  new_entry chunk = record {
    chunk = chunk;
    fused_score = f.zero64;
    dense_score = none;
    bm25_score = none;
  }

  -- What one result adds to its entry.
  add_result : ℕ → Leg → ℕ → SearchResult → FusedChunkEntry → FusedChunkEntry
  add_result k dense_leg rank result e = record e {
    fused_score = f.plus64 e.fused_score (rrf_score f rank k);
    dense_score = some (f.widen result.score);
  }
  add_result k bm25_leg rank result e = record e {
    fused_score = f.plus64 e.fused_score (rrf_score f rank k);
    bm25_score = some (f.widen result.score);
  }

  -- `entries.entry(key).or_insert_with(..)`, and the updates through it.
  unfoldable pub add_at : ℕ → Leg → ℕ → SearchResult → List FusedChunkEntry → List FusedChunkEntry
  unfolding new_entry add_result key_eq
  add_at k leg rank result [] = add_result k leg rank result (new_entry result.chunk) ∷ []
  add_at k leg rank result (e ∷ es) =
      let rest = add_at k leg rank result es in
      if key_eq (fusion_key e.chunk) (fusion_key result.chunk)
      then add_result k leg rank result e ∷ es
      else e ∷ rest

  -- The loop of `add_leg`, from a rank. The map is the list of its entries, each under the key of its
  -- chunk.
  unfoldable pub add_leg :
      ℕ → Leg → ℕ → List SearchResult → List FusedChunkEntry → List FusedChunkEntry
  unfolding add_at
  add_leg k leg rank [] entries = entries
  add_leg k leg rank (result ∷ results) entries =
      add_leg k leg (rank + 1) results (add_at k leg rank result entries)

  unfoldable pub entry_before : FusedChunkEntry → FusedChunkEntry → Bool
  unfolding before
  entry_before a b =
      before (f.compare64 b.fused_score a.fused_score) (fusion_key a.chunk) (fusion_key b.chunk)

  unfoldable pub result_before : SearchResult → SearchResult → Bool
  unfolding before
  result_before a b = before (f.compare32 b.score a.score) (fusion_key a.chunk) (fusion_key b.chunk)

  -- The entries of the map, in an order that no law depends on, sorted.
  unfoldable pub rrf_fuse_global : List SearchResult → List SearchResult → ℕ → List FusedChunkEntry
  unfolding add_leg sort_by entry_before
  rrf_fuse_global dense_results bm25_results k =
      sort_by entry_before
        (add_leg k bm25_leg 0 bm25_results (add_leg k dense_leg 0 dense_results []))

  unfoldable pub pool_leg_results : List SearchResult → List SearchResult
  unfolding sort_by result_before
  pool_leg_results results = sort_by result_before results
