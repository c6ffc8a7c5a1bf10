-- ===== src/Core/Search/Ranking.antt =====
-- The order of the fused entries of core/src/search.rs, by score and by key.
use Prim.Native.Nat.{compare}
use localdb.Prelude.{
  ℕ, ◌+◌, ◌≡◌, sym, ◌∙◌, inl, inr, List, [], ◌∷◌, Bool, true, false, ◌&&◌, ◌||◌, ltb, ◌==◌, text_eq,
  text_lt, arith, All, Bool-cases,
}
use localdb.Core.Store.{SearchResult}
use localdb.Core.Search.{
  Floats, rrf_score, FusedChunkEntry, Leg, dense_leg, bm25_leg, key_eq, key_lt, before, new_entry,
  add_result, add_at, add_leg, entry_before, rrf_fuse_global,
}
use localdb.Core.Search.Order.{
  Order, Sorted, All-sort_by, sort_by-Sorted, key_eq_iff, before_asym, before_trans, before_total,
}
use localdb.Core.Search.Keys.{entry_key, result_key, has, Distinct, rrf_fuse_global-keys}

-- Each element stands before every later one.
abbrev pub Strict : {A : Type 0} → (A → A → Bool) → List A → Type 0
Strict less [] = Unit
Strict less (x ∷ xs) = All (λ y. less x y ≡ true) xs × Strict less xs

-- A greater score goes first, then a lesser store id, and then a lesser chunk id.
unfoldable pub goes_first : (ℕ → ℕ) → FusedChunkEntry → FusedChunkEntry → Bool
unfolding text_eq text_lt
goes_first rank_of a b =
    ltb (rank_of b.fused_score) (rank_of a.fused_score)
    || (rank_of a.fused_score == rank_of b.fused_score
        && (text_lt a.chunk.store_id b.chunk.store_id
            || (text_eq a.chunk.store_id b.chunk.store_id && text_lt a.chunk.id b.chunk.id)))

module _ (f : Floats) where
  module _ (Num : ℕ → Type 0) (rank_of : ℕ → ℕ) (n : ℕ) (zero-Num : Num f.zero64)
      (plus-Num : (x rank : ℕ) → Num x → Num (f.plus64 x (rrf_score f rank n)))
      (ordered : (a b : ℕ)
        → Num a
        → Num b
        → f.compare64 a b ≡ compare (rank_of a) (rank_of b)) where
    abbrev Scored : FusedChunkEntry → Type 0
    Scored e = Num e.fused_score

    add_result-Scored :
        (leg : Leg) (rank : ℕ) (r : SearchResult) (e : FusedChunkEntry)
        → Scored e
        → Scored (add_result f n leg rank r e)
    unfolding add_result
    add_result-Scored dense_leg rank r e p = plus-Num e.fused_score rank p
    add_result-Scored bm25_leg rank r e p = plus-Num e.fused_score rank p

    add_at-Scored :
        (leg : Leg) (rank : ℕ) (r : SearchResult) (es : List FusedChunkEntry)
        → All Scored es
        → All Scored (add_at f n leg rank r es)
    unfolding add_at new_entry
    add_at-Scored leg rank r [] a =
        (add_result-Scored leg rank r (new_entry f r.chunk) zero-Num, tt)
    add_at-Scored leg rank r (e ∷ es) a = elim (Bool-cases (key_eq (entry_key e) (result_key r))) [
      | inl same ↦ rw (same, add_at) (add_result-Scored leg rank r e a.0, a.1)
      | inr other ↦ rw (other, add_at) (a.0, add_at-Scored leg rank r es a.1)
    ]

    add_leg-Scored :
        (leg : Leg) (rank : ℕ) (rs : List SearchResult) (es : List FusedChunkEntry)
        → All Scored es
        → All Scored (add_leg f n leg rank rs es)
    unfolding add_leg
    add_leg-Scored leg rank [] es a = a
    add_leg-Scored leg rank (r ∷ rs) es a =
        add_leg-Scored leg (rank + 1) rs (add_at f n leg rank r es) (add_at-Scored leg rank r es a)

    abbrev ranks_before : FusedChunkEntry → FusedChunkEntry → Bool
    ranks_before a b =
        before (compare (rank_of b.fused_score) (rank_of a.fused_score)) (entry_key a) (entry_key b)

    entry_before-ranks :
        (a b : FusedChunkEntry) → Scored a → Scored b → entry_before f a b ≡ ranks_before a b
    unfolding entry_before before
    entry_before-ranks a b p q = ground (arith, ordered b.fused_score a.fused_score q p)

    entry_before_asym :
        (a b : FusedChunkEntry)
        → Scored a
        → Scored b
        → entry_before f a b ≡ true
        → entry_before f b a ≡ false
    entry_before_asym a b p q e =
        entry_before-ranks b a q p
        ∙ before_asym (rank_of a.fused_score) (rank_of b.fused_score) (entry_key a) (entry_key b)
            (sym (entry_before-ranks a b p q) ∙ e)

    entry_before_trans :
        (a b c : FusedChunkEntry)
        → Scored a
        → Scored b
        → Scored c
        → entry_before f a b ≡ true
        → entry_before f b c ≡ true
        → entry_before f a c ≡ true
    entry_before_trans a b c p q r e h =
        entry_before-ranks a c p r
        ∙ before_trans (rank_of a.fused_score) (rank_of b.fused_score) (rank_of c.fused_score)
            (entry_key a) (entry_key b) (entry_key c) (sym (entry_before-ranks a b p q) ∙ e)
            (sym (entry_before-ranks b c q r) ∙ h)

    entry_before_below :
        (a b c : FusedChunkEntry)
        → Scored a
        → Scored b
        → Scored c
        → entry_before f a b ≡ true
        → entry_before f c b ≡ false
        → entry_before f c a ≡ false
    entry_before_below a b c p q r e h = ground (arith, entry_before_trans c a b r p q, e, h)

    entry_Order : Order (entry_before f) Scored
    entry_Order = record { asym = entry_before_asym; below = entry_before_below }

    entry_before_total :
        (a b : FusedChunkEntry)
        → Scored a
        → Scored b
        → key_eq (entry_key a) (entry_key b) ≡ false
        → entry_before f b a ≡ false
        → entry_before f a b ≡ true
    entry_before_total a b p q other e =
        entry_before-ranks a b p q
        ∙ before_total (rank_of a.fused_score) (rank_of b.fused_score) (entry_key a) (entry_key b)
            other (sym (entry_before-ranks b a q p) ∙ e)

    first-ranks : (a b : FusedChunkEntry) → ranks_before a b ≡ true → goes_first rank_of a b ≡ true
    unfolding goes_first before key_lt
    first-ranks a b e = ground (arith, e)

    strictly :
        (x : FusedChunkEntry) (xs : List FusedChunkEntry)
        → Scored x
        → All Scored xs
        → has entry_key (entry_key x) xs ≡ false
        → All (λ y. entry_before f y x ≡ false) xs
        → All (λ y. goes_first rank_of x y ≡ true) xs
    unfolding has
    strictly x [] p a new s = tt
    strictly x (y ∷ ys) p a new s = (
      first-ranks x y (
          sym (entry_before-ranks x y p a.0)
          ∙ entry_before_total x y p a.0
              (ground (
                arith,
                new,
                key_eq_iff (entry_key x) (entry_key y),
                key_eq_iff (entry_key y) (entry_key x),
              ))
              s.0),
      strictly x ys p a.1 (ground (arith, new)) s.1,
    )

    Sorted-Strict :
        (es : List FusedChunkEntry)
        → All Scored es
        → Distinct entry_key es
        → Sorted (entry_before f) es
        → Strict (goes_first rank_of) es
    Sorted-Strict [] a d s = tt
    Sorted-Strict (e ∷ es) a d s = (strictly e es a.0 a.1 d.0 s.0, Sorted-Strict es a.1 d.1 s.1)

    -- The fusion puts each entry strictly before every later one: a greater score first, and among
    -- equal scores the lesser store and chunk id, so no order of the map shows in the answer. The
    -- scores are numbers (`Num`), which `partial_cmp` compares as `rank_of` ranks them: `0.0` is a
    -- number, and adding the share of a rank to a number gives one.
    pub rrf_fuse_global-Strict :
        (dense bm25 : List SearchResult)
        → Strict (goes_first rank_of) (rrf_fuse_global f dense bm25 n)
    unfolding rrf_fuse_global
    rrf_fuse_global-Strict dense bm25 =
        let both = add_leg f n bm25_leg 0 bm25 (add_leg f n dense_leg 0 dense []) in
        let scored =
          add_leg-Scored bm25_leg 0 bm25 (add_leg f n dense_leg 0 dense [])
            (add_leg-Scored dense_leg 0 dense [] tt) in
        Sorted-Strict (rrf_fuse_global f dense bm25 n)
          (All-sort_by (entry_before f) Scored both scored) (rrf_fuse_global-keys f dense bm25 n).0
          (sort_by-Sorted (entry_before f) Scored entry_Order both scored)
