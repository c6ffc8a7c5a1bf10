-- ===== src/Prelude/Assoc.antt =====
-- Hash maps and hash sets keyed by texts, as association lists and lists. The order of the
-- entries stands for the unspecified iteration order: no law below depends on it.
use mathlib.Core.Path.{◌≡◌, refl}
use mathlib.Core.Bool.{Bool, true, false, ◌||◌}
use mathlib.Core.Option.{Option, none, some}
use mathlib.Core.List.{List, [], ◌∷◌}
use native.Mathlib.Omega.{arith}
use localdb.Prelude.Tests.{if◌then◌else◌}
use localdb.Prelude.Bytes.{Text, text_eq, text_eq_iff}

module _ {ℓ} {V : Type ℓ} where
  unfoldable pub lookup : Text → List (Text × V) → Option V
  lookup k [] = none
  lookup k ((j, v) ∷ m) = if text_eq j k then some v else lookup k m

  unfoldable pub insert : Text → V → List (Text × V) → List (Text × V)
  insert k v [] = (k, v) ∷ []
  insert k v ((j, w) ∷ m) = if text_eq j k then (k, v) ∷ m else (j, w) ∷ insert k v m

  unfoldable pub remove : Text → List (Text × V) → List (Text × V)
  remove k [] = []
  remove k ((j, w) ∷ m) = if text_eq j k then remove k m else (j, w) ∷ remove k m

  abbrev pub values : List (Text × V) → List V
  values [] = []
  values ((k, v) ∷ m) = v ∷ values m

  pub lookup-insert :
      (k j : Text) (v : V) (m : List (Text × V))
      → lookup j (insert k v m) ≡ (if text_eq k j then some v else lookup j m)
  unfolding lookup insert
  lookup-insert k j v [] = refl
  lookup-insert k j v ((i, w) ∷ m) =
      ground (arith, text_eq_iff k j, text_eq_iff i k, text_eq_iff i j, lookup-insert k j v m)

  pub lookup-remove :
      (k j : Text) (m : List (Text × V))
      → lookup j (remove k m) ≡ (if text_eq k j then none else lookup j m)
  unfolding lookup remove
  lookup-remove k j [] = ground arith
  lookup-remove k j ((i, w) ∷ m) =
      ground (arith, text_eq_iff k j, text_eq_iff i k, text_eq_iff i j, lookup-remove k j m)

  abbrev pub has_key : Text → List (Text × V) → Bool
  has_key k [] = false
  has_key k ((j, v) ∷ m) = if text_eq j k then true else has_key k m

  -- A map has one entry for each key.
  abbrev pub Unique : List (Text × V) → Type 0
  Unique [] = Unit
  Unique ((k, v) ∷ m) = (has_key k m ≡ false) × Unique m

  has_key-insert :
      (k j : Text) (v : V) (m : List (Text × V))
      → has_key k (insert j v m) ≡ (if text_eq j k then true else has_key k m)
  unfolding insert
  has_key-insert k j v [] = refl
  has_key-insert k j v ((i, w) ∷ m) =
      ground (arith, text_eq_iff j k, text_eq_iff i j, text_eq_iff i k, has_key-insert k j v m)

  pub insert-Unique : (k : Text) (v : V) (m : List (Text × V)) → Unique m → Unique (insert k v m)
  unfolding insert
  insert-Unique k v [] u = (refl, tt)
  insert-Unique k v ((j, w) ∷ m) u =
      ground (arith, text_eq_iff j k, text_eq_iff k j, has_key-insert j k v m, insert-Unique k v m)

  has_key-remove :
      (k j : Text) (m : List (Text × V)) → has_key k m ≡ false → has_key k (remove j m) ≡ false
  unfolding remove
  has_key-remove k j [] h = refl
  has_key-remove k j ((i, w) ∷ m) h = ground (arith, has_key-remove k j m)

  pub remove-Unique : (k : Text) (m : List (Text × V)) → Unique m → Unique (remove k m)
  unfolding remove
  remove-Unique k [] u = tt
  remove-Unique k ((j, w) ∷ m) u = ground (arith, has_key-remove j k m, remove-Unique k m)

  pub lookup-has_key : (k : Text) (m : List (Text × V)) → has_key k m ≡ false → lookup k m ≡ none
  unfolding lookup
  lookup-has_key k [] h = refl
  lookup-has_key k ((j, w) ∷ m) h = ground (arith, lookup-has_key k m)

-- A set of texts.
unfoldable pub contains : Text → List Text → Bool
contains k [] = false
contains k (j ∷ s) = text_eq j k || contains k s

unfoldable pub delete : Text → List Text → List Text
delete k [] = []
delete k (j ∷ s) = if text_eq j k then delete k s else j ∷ delete k s

pub contains-cons :
    (k j : Text) (s : List Text) → contains j (k ∷ s) ≡ (text_eq k j || contains j s)
unfolding contains
contains-cons k j s = refl

pub contains-delete :
    (k j : Text) (s : List Text)
    → contains j (delete k s) ≡ (if text_eq k j then false else contains j s)
unfolding contains delete
contains-delete k j [] = ground arith
contains-delete k j (i ∷ s) =
    ground (arith, text_eq_iff k j, text_eq_iff i k, text_eq_iff i j, contains-delete k j s)
