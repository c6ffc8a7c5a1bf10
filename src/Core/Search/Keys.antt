-- ===== src/Core/Search/Keys.antt =====
-- The keys of the fused entries of core/src/search.rs.
use localdb.Prelude.{
  ℕ, ◌+◌, ◌≡◌, refl, inl, inr, List, [], ◌∷◌, Bool, false, ◌||◌, arith, All, Bool-cases,
}
use localdb.Core.Store.{SearchResult}
use localdb.Core.Search.{
  Floats, FusedChunkEntry, FusionKey, Leg, dense_leg, bm25_leg, key_eq, insert_sorted, insert_each,
  sort_by, new_entry, add_result, add_at, add_leg, entry_before, rrf_fuse_global,
}
use localdb.Core.Search.Order.{key_eq_iff}

abbrev pub entry_key : FusedChunkEntry → FusionKey
entry_key e = (e.chunk.store_id, e.chunk.id)

abbrev pub result_key : SearchResult → FusionKey
result_key r = (r.chunk.store_id, r.chunk.id)

module _ {A : Type 0} (key : A → FusionKey) where
  unfoldable pub has : FusionKey → List A → Bool
  unfolding key_eq
  has k [] = false
  has k (x ∷ xs) = key_eq (key x) k || has k xs

  -- No two elements have the same key.
  abbrev pub Distinct : List A → Type 0
  Distinct [] = Unit
  Distinct (x ∷ xs) = (has (key x) xs ≡ false) × Distinct xs

  module _ (less : A → A → Bool) where
    has-insert_sorted :
        (k : FusionKey) (x : A) (xs : List A)
        → has k (insert_sorted less x xs) ≡ (key_eq (key x) k || has k xs)
    unfolding has insert_sorted
    has-insert_sorted k x [] = refl
    has-insert_sorted k x (y ∷ ys) = ground (arith, has-insert_sorted k x ys)

    insert_sorted-Distinct :
        (x : A) (xs : List A)
        → has (key x) xs ≡ false
        → Distinct xs
        → Distinct (insert_sorted less x xs)
    unfolding has insert_sorted
    insert_sorted-Distinct x [] new d = (refl, tt)
    insert_sorted-Distinct x (y ∷ ys) new d = ground (
      arith,
      insert_sorted-Distinct x ys,
      has-insert_sorted (key y) x ys,
      key_eq_iff (key x) (key y),
      key_eq_iff (key y) (key x),
    )

    has-insert_each :
        (k : FusionKey) (xs sorted : List A)
        → has k (insert_each less xs sorted) ≡ (has k xs || has k sorted)
    unfolding has insert_each
    has-insert_each k [] sorted = refl
    has-insert_each k (x ∷ xs) sorted =
        ground
          (arith, has-insert_each k xs (insert_sorted less x sorted), has-insert_sorted k x sorted)

    -- No element of the first list has a key of the second.
    abbrev Apart : List A → List A → Type 0
    Apart xs ys = All (λ x. has (key x) ys ≡ false) xs

    Apart-insert :
        (xs ys : List A) (x : A)
        → has (key x) xs ≡ false
        → Apart xs ys
        → Apart xs (insert_sorted less x ys)
    unfolding has
    Apart-insert [] ys x new a = tt
    Apart-insert (y ∷ xs) ys x new a = (
      ground (
        arith,
        has-insert_sorted (key y) x ys,
        key_eq_iff (key x) (key y),
        key_eq_iff (key y) (key x),
      ),
      Apart-insert xs ys x (ground arith) a.1,
    )

    insert_each-Distinct :
        (xs sorted : List A)
        → Distinct xs
        → Distinct sorted
        → Apart xs sorted
        → Distinct (insert_each less xs sorted)
    unfolding insert_each
    insert_each-Distinct [] sorted d e a = e
    insert_each-Distinct (x ∷ xs) sorted d e a =
        insert_each-Distinct xs (insert_sorted less x sorted) d.1
          (insert_sorted-Distinct x sorted a.0 e) (Apart-insert xs sorted x d.0 a.1)

    Apart-none : (xs : List A) → Apart xs []
    unfolding has
    Apart-none [] = tt
    Apart-none (x ∷ xs) = (refl, Apart-none xs)

    pub has-sort_by : (k : FusionKey) (xs : List A) → has k (sort_by less xs) ≡ has k xs
    unfolding has sort_by
    has-sort_by k xs = ground (arith, has-insert_each k xs [])

    pub sort_by-Distinct : (xs : List A) → Distinct xs → Distinct (sort_by less xs)
    unfolding sort_by
    sort_by-Distinct xs d = insert_each-Distinct xs [] d tt (Apart-none xs)

module _ (f : Floats) where
  has-add_at :
      (n : ℕ) (leg : Leg) (rank : ℕ) (r : SearchResult) (es : List FusedChunkEntry) (k : FusionKey)
      → has entry_key k (add_at f n leg rank r es) ≡ (key_eq (result_key r) k || has entry_key k es)
  unfolding has add_at new_entry add_result
  has-add_at n dense_leg rank r [] k = refl
  has-add_at n bm25_leg rank r [] k = refl
  has-add_at n leg rank r (e ∷ es) k = elim (Bool-cases (key_eq (entry_key e) (result_key r))) [
    | inl same ↦ ground (arith, key_eq_iff (entry_key e) (result_key r))
    | inr other ↦ ground (arith, has-add_at n leg rank r es k)
  ]

  -- An update keeps the key of its entry.
  add_result-key :
      (n : ℕ) (leg : Leg) (rank : ℕ) (r : SearchResult) (e : FusedChunkEntry)
      → entry_key (add_result f n leg rank r e) ≡ entry_key e
  unfolding add_result
  add_result-key n dense_leg rank r e = refl
  add_result-key n bm25_leg rank r e = refl

  add_at-Distinct :
      (n : ℕ) (leg : Leg) (rank : ℕ) (r : SearchResult) (es : List FusedChunkEntry)
      → Distinct entry_key es
      → Distinct entry_key (add_at f n leg rank r es)
  unfolding has add_at
  add_at-Distinct n leg rank r [] d = (refl, tt)
  add_at-Distinct n leg rank r (e ∷ es) d =
      elim (Bool-cases (key_eq (entry_key e) (result_key r))) [
        | inl same ↦ rw (same, add_at, add_result-key n leg rank r e) d
        | inr other ↦
            rw (other, add_at)
              (
                ground (
                  arith,
                  has-add_at n leg rank r es (entry_key e),
                  key_eq_iff (result_key r) (entry_key e),
                  key_eq_iff (entry_key e) (result_key r),
                ),
                add_at-Distinct n leg rank r es d.1,
              )
      ]

  pub add_leg-Distinct :
      (n : ℕ) (leg : Leg) (rank : ℕ) (rs : List SearchResult) (es : List FusedChunkEntry)
      → Distinct entry_key es
      → Distinct entry_key (add_leg f n leg rank rs es)
  unfolding add_leg
  add_leg-Distinct n leg rank [] es d = d
  add_leg-Distinct n leg rank (r ∷ rs) es d =
      add_leg-Distinct n leg (rank + 1) rs (add_at f n leg rank r es)
        (add_at-Distinct n leg rank r es d)

  pub has-add_leg :
      (n : ℕ) (leg : Leg) (rank : ℕ) (rs : List SearchResult) (es : List FusedChunkEntry)
      (k : FusionKey)
      → has entry_key k (add_leg f n leg rank rs es) ≡ (has result_key k rs || has entry_key k es)
  unfolding has add_leg
  has-add_leg n leg rank [] es k = refl
  has-add_leg n leg rank (r ∷ rs) es k = ground (
    arith,
    has-add_leg n leg (rank + 1) rs (add_at f n leg rank r es) k,
    has-add_at n leg rank r es k,
  )

  -- The fusion of two legs has one entry for each store and chunk id that one of the legs has, and no
  -- other entry: a chunk that both legs find, or that a leg finds twice, is one candidate.
  pub rrf_fuse_global-keys :
      (dense bm25 : List SearchResult) (n : ℕ)
      → Distinct entry_key (rrf_fuse_global f dense bm25 n)
        × ((k : FusionKey)
            → has entry_key k (rrf_fuse_global f dense bm25 n)
              ≡ (has result_key k dense || has result_key k bm25))
  unfolding has rrf_fuse_global
  rrf_fuse_global-keys dense bm25 n =
      let once = add_leg f n dense_leg 0 dense [] in
      let both = add_leg f n bm25_leg 0 bm25 once in
      (
        sort_by-Distinct entry_key (entry_before f) both
            (add_leg-Distinct n bm25_leg 0 bm25 once (add_leg-Distinct n dense_leg 0 dense [] tt)),
        λ k. ground (
          arith,
          has-sort_by entry_key (entry_before f) k both,
          has-add_leg n bm25_leg 0 bm25 once k,
          has-add_leg n dense_leg 0 dense [] k,
        ),
      )
