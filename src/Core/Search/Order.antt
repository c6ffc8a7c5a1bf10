-- ===== src/Core/Search/Order.antt =====
-- The sort of core/src/search.rs, and its order on scores and keys.
use Prim.Native.Nat.{compare}
use localdb.Prelude.{
  ℕ, ◌≡◌, ◌↔◌, inl, inr, List, [], ◌∷◌, Bool, true, false, arith, All, Bool-cases, text_eq_iff,
  text_lt_irrefl, text_lt_trans, text_lt_total,
}
use localdb.Core.Search.{FusionKey, key_eq, key_lt, before, insert_sorted, insert_each, sort_by}

module _ {A : Type 0} (less : A → A → Bool) (P : A → Type 0) where
  pub All-insert_sorted : (x : A) (xs : List A) → P x → All P xs → All P (insert_sorted less x xs)
  unfolding insert_sorted
  All-insert_sorted x [] p a = (p, tt)
  All-insert_sorted x (y ∷ ys) p a = elim (Bool-cases (less x y)) [
    | inl e ↦ rw (e, insert_sorted) (p, a)
    | inr e ↦ rw (e, insert_sorted) (a.0, All-insert_sorted x ys p a.1)
  ]

  All-insert_each :
      (xs sorted : List A) → All P xs → All P sorted → All P (insert_each less xs sorted)
  unfolding insert_each
  All-insert_each [] sorted a b = b
  All-insert_each (x ∷ xs) sorted a b =
      All-insert_each xs (insert_sorted less x sorted) a.1 (All-insert_sorted x sorted a.0 b)

  pub All-sort_by : (xs : List A) → All P xs → All P (sort_by less xs)
  unfolding sort_by
  All-sort_by xs a = All-insert_each xs [] a tt

-- No element stands after one that it is less than.
abbrev pub Sorted : {A : Type 0} → (A → A → Bool) → List A → Type 0
Sorted less [] = Unit
Sorted less (x ∷ xs) = All (λ y. less y x ≡ false) xs × Sorted less xs

-- An order on the elements with a property.
pub record Order {A : Type 0} (less : A → A → Bool) (P : A → Type 0) : Type 0 where
  pub asym : (x y : A) → P x → P y → less x y ≡ true → less y x ≡ false
  pub below : (x y z : A) → P x → P y → P z → less x y ≡ true → less z y ≡ false → less z x ≡ false

module _ {A : Type 0} (less : A → A → Bool) (P : A → Type 0) (order : Order less P) where
  above :
      (x y : A) (ys : List A)
      → P x
      → P y
      → All P ys
      → less x y ≡ true
      → All (λ z. less z y ≡ false) ys
      → All (λ z. less z x ≡ false) ys
  above x y [] p q a e s = tt
  above x y (z ∷ ys) p q a e s = (order.below x y z p q a.0 e s.0, above x y ys p q a.1 e s.1)

  insert_sorted-Sorted :
      (x : A) (xs : List A)
      → P x
      → All P xs
      → Sorted less xs
      → Sorted less (insert_sorted less x xs)
  unfolding insert_sorted
  insert_sorted-Sorted x [] p a s = (tt, tt)
  insert_sorted-Sorted x (y ∷ ys) p a s = elim (Bool-cases (less x y)) [
    | inl e ↦ rw (e, insert_sorted) ((order.asym x y p a.0 e, above x y ys p a.0 a.1 e s.0), s)
    | inr e ↦
        rw (e, insert_sorted)
          (
            All-insert_sorted less (λ z. less z y ≡ false) x ys e s.0,
            insert_sorted-Sorted x ys p a.1 s.1,
          )
  ]

  insert_each-Sorted :
      (xs sorted : List A)
      → All P xs
      → All P sorted
      → Sorted less sorted
      → Sorted less (insert_each less xs sorted)
  unfolding insert_each
  insert_each-Sorted [] sorted a b s = s
  insert_each-Sorted (x ∷ xs) sorted a b s =
      insert_each-Sorted xs (insert_sorted less x sorted) a.1
        (All-insert_sorted less P x sorted a.0 b) (insert_sorted-Sorted x sorted a.0 b s)

  pub sort_by-Sorted : (xs : List A) → All P xs → Sorted less (sort_by less xs)
  unfolding sort_by
  sort_by-Sorted xs a = insert_each-Sorted xs [] a tt tt

pub key_eq_iff : (k l : FusionKey) → (key_eq k l ≡ true) ↔ (k ≡ l)
unfolding key_eq
key_eq_iff (s, c) (t, d) = ground (arith, text_eq_iff s t, text_eq_iff c d)

key_lt_asym : (k l : FusionKey) → key_lt k l ≡ true → key_lt l k ≡ false
unfolding key_lt
key_lt_asym (s, c) (t, d) e = ground (
  arith,
  text_eq_iff s t,
  text_eq_iff t s,
  text_lt_irrefl s,
  text_lt_irrefl c,
  text_lt_trans s t s,
  text_lt_trans c d c,
)

key_lt_trans : (k l m : FusionKey) → key_lt k l ≡ true → key_lt l m ≡ true → key_lt k m ≡ true
unfolding key_lt
key_lt_trans (s, c) (t, d) (u, b) e h = ground (
  arith,
  text_eq_iff s t,
  text_eq_iff t u,
  text_eq_iff s u,
  text_lt_trans s t u,
  text_lt_trans c d b,
)

key_lt_total : (k l : FusionKey) → key_eq k l ≡ false → key_lt l k ≡ false → key_lt k l ≡ true
unfolding key_lt key_eq
key_lt_total (s, c) (t, d) e h =
    ground (arith, text_eq_iff s t, text_eq_iff t s, text_lt_total s t, text_lt_total c d)

-- Scores that are numbers, the greater first, and then the keys.
pub before_asym :
    (a b : ℕ) (k l : FusionKey) → before (compare b a) k l ≡ true → before (compare a b) l k ≡ false
unfolding before
before_asym a b k l e = ground (arith, key_lt_asym k l)

pub before_trans :
    (a b c : ℕ) (k l m : FusionKey)
    → before (compare b a) k l ≡ true
    → before (compare c b) l m ≡ true
    → before (compare c a) k m ≡ true
unfolding before
before_trans a b c k l m e h = ground (arith, key_lt_trans k l m)

pub before_total :
    (a b : ℕ) (k l : FusionKey)
    → key_eq k l ≡ false
    → before (compare a b) l k ≡ false
    → before (compare b a) k l ≡ true
unfolding before
before_total a b k l e h = ground (arith, key_lt_total k l)
