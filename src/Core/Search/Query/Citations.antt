-- ===== src/Core/Search/Query/Citations.antt =====
-- What the citations of a query are of.
use localdb.Prelude.{
  ℕ, ◌+◌, ◌≡◌, inl, inr, some, List, [], ◌∷◌, true, arith, Text, text_eq, text_eq_iff, lookup,
  insert, lookup-insert, All, Bool-cases,
}
use localdb.Core.Store.{ChunkRecord, SearchResult}
use localdb.Core.Search.{
  Floats, rrf_k, FusedChunkEntry, Leg, dense_leg, bm25_leg, fusion_key, key_eq, new_entry,
  add_result, add_at, add_leg, entry_before, result_before, rrf_fuse_global, pool_leg_results,
}
use localdb.Core.Search.Order.{All-sort_by}

abbrev pub Names : Type 0
Names = List (Text × Text)

module _ (P : ChunkRecord → Type 0) where
  -- A chunk of which the store has a name.
  abbrev pub Held : Names → ChunkRecord → Type 0
  Held names c = ((name : Text) × (lookup c.store_id names ≡ some name)) × P c

  pub Held-insert :
      (id name : Text) (names : Names) (r : SearchResult)
      → Held names r.chunk
      → Held (insert id name names) r.chunk
  Held-insert id name names r h = elim (Bool-cases (text_eq id r.chunk.store_id)) [
    | inl e ↦ ((name, ground (arith, lookup-insert id r.chunk.store_id name names)), h.1)
    | inr e ↦ ((h.0.0, ground (arith, lookup-insert id r.chunk.store_id name names, h.0.1)), h.1)
  ]

  pub Held-own :
      (id name : Text) (names : Names) (r : SearchResult)
      → (text_eq r.chunk.store_id id ≡ true) × P r.chunk
      → Held (insert id name names) r.chunk
  Held-own id name names r own = (
    (
      name,
      ground (
        arith,
        lookup-insert id r.chunk.store_id name names,
        text_eq_iff r.chunk.store_id id,
        text_eq_iff id r.chunk.store_id,
      ),
    ),
    own.1,
  )

  module _ (f : Floats) (names : Names) where
    abbrev pub HeldEntry : FusedChunkEntry → Type 0
    HeldEntry e = Held names e.chunk

    abbrev pub HeldResult : SearchResult → Type 0
    HeldResult r = Held names r.chunk

    add_at-Held :
        (n : ℕ) (leg : Leg) (rank : ℕ) (r : SearchResult) (es : List FusedChunkEntry)
        → HeldResult r
        → All HeldEntry es
        → All HeldEntry (add_at f n leg rank r es)
    unfolding add_at new_entry add_result
    add_at-Held n dense_leg rank r [] h a = (h, tt)
    add_at-Held n bm25_leg rank r [] h a = (h, tt)
    add_at-Held n leg rank r (e ∷ es) h a =
        elim (Bool-cases (key_eq (fusion_key e.chunk) (fusion_key r.chunk))) [
          | inl same ↦ rw (same, add_at) (add_result-Held n leg rank r e a.0, a.1)
          | inr other ↦ rw (other, add_at) (a.0, add_at-Held n leg rank r es h a.1)
        ]
      where
        add_result-Held :
            (n : ℕ) (leg : Leg) (rank : ℕ) (r : SearchResult) (e : FusedChunkEntry)
            → HeldEntry e
            → HeldEntry (add_result f n leg rank r e)
        add_result-Held n dense_leg rank r e h = h
        add_result-Held n bm25_leg rank r e h = h

    add_leg-Held :
        (n : ℕ) (leg : Leg) (rank : ℕ) (rs : List SearchResult) (es : List FusedChunkEntry)
        → All HeldResult rs
        → All HeldEntry es
        → All HeldEntry (add_leg f n leg rank rs es)
    unfolding add_leg
    add_leg-Held n leg rank [] es a b = b
    add_leg-Held n leg rank (r ∷ rs) es a b =
        add_leg-Held n leg (rank + 1) rs (add_at f n leg rank r es) a.1
          (add_at-Held n leg rank r es a.0 b)

    pub fused-Held :
        (dense bm25 : List SearchResult)
        → All HeldResult dense
        → All HeldResult bm25
        → All HeldEntry
            (rrf_fuse_global f (pool_leg_results f dense) (pool_leg_results f bm25) (rrf_k f))
    unfolding rrf_fuse_global pool_leg_results
    fused-Held dense bm25 a b = All-sort_by (entry_before f) HeldEntry _ (
        add_leg-Held (rrf_k f) bm25_leg 0 _ _ (All-sort_by (result_before f) HeldResult bm25 b) (
          add_leg-Held (rrf_k f) dense_leg 0 _ [] (All-sort_by (result_before f) HeldResult dense a)
            tt))
