-- ===== src/Prelude/Bytes.antt =====
-- A text as the list of its bytes, compared as `String` compares: byte by byte.
use Prim.Native.Nat.{ℕ, compare, Ordering}
use Prim.Native.Char.{code}
use Prim.Native.String.{String}
use mathlib.Core.Path.{◌≡◌, refl}
use mathlib.Core.Logic.{◌↔◌, ◌⊎◌}
use mathlib.Core.Bool.{Bool, true, false, ◌&&◌, ◌||◌}
use mathlib.Core.List.{List, [], ◌∷◌, ◌++◌}
use native.Mathlib.Omega.{arith}
use localdb.Prelude.Tests.{◌==◌}
use localdb.Prelude.Lists.{length}

abbrev pub Text : Type 0
Text = List ℕ

abbrev pub codes : String → Text
codes String.[] = []
codes (String.◌∷◌ c s) = code c ∷ codes s

unfoldable pub text_eq : Text → Text → Bool
text_eq [] [] = true
text_eq [] (y ∷ ys) = false
text_eq (x ∷ xs) [] = false
text_eq (x ∷ xs) (y ∷ ys) = x == y && text_eq xs ys

pub text_eq_iff : (s t : Text) → (text_eq s t ≡ true) ↔ (s ≡ t)
unfolding text_eq
text_eq_iff [] [] = ground arith
text_eq_iff [] (y ∷ ys) = ground arith
text_eq_iff (x ∷ xs) [] = ground arith
text_eq_iff (x ∷ xs) (y ∷ ys) = ground (arith, text_eq_iff xs ys)

pub text_eq_refl : (s : Text) → text_eq s s ≡ true
text_eq_refl s = (text_eq_iff s s).1 refl

-- `a < b` on `str`: the first byte that differs decides, and a proper prefix is less.
unfoldable pub text_lt : Text → Text → Bool
text_lt [] [] = false
text_lt [] (y ∷ ys) = true
text_lt (x ∷ xs) [] = false
text_lt (x ∷ xs) (y ∷ ys) =
    let rest = text_lt xs ys in
    elim (compare x y) [ Ordering.lt ↦ true | Ordering.eq ↦ rest | Ordering.gt ↦ false ]

pub text_lt_irrefl : (s : Text) → text_lt s s ≡ false
unfolding text_lt
text_lt_irrefl [] = refl
text_lt_irrefl (x ∷ xs) = ground (arith, text_lt_irrefl xs)

pub text_lt_trans : (s t u : Text) → text_lt s t ≡ true → text_lt t u ≡ true → text_lt s u ≡ true
unfolding text_lt
text_lt_trans [] [] u p q = ground arith
text_lt_trans [] (y ∷ ys) [] p q = ground arith
text_lt_trans [] (y ∷ ys) (z ∷ zs) p q = refl
text_lt_trans (x ∷ xs) [] u p q = ground arith
text_lt_trans (x ∷ xs) (y ∷ ys) [] p q = ground arith
text_lt_trans (x ∷ xs) (y ∷ ys) (z ∷ zs) p q = ground (arith, text_lt_trans xs ys zs)

-- Any two texts are equal, or one is less than the other.
pub text_lt_total :
    (s t : Text) → (text_lt s t ≡ true) ⊎ ((text_eq s t ≡ true) ⊎ (text_lt t s ≡ true))
unfolding text_lt text_eq
text_lt_total [] [] = ground arith
text_lt_total [] (y ∷ ys) = ground arith
text_lt_total (x ∷ xs) [] = ground arith
text_lt_total (x ∷ xs) (y ∷ ys) = ground (arith, text_lt_total xs ys)

pub text_lt_cotrans :
    (s t u : Text) → text_lt s u ≡ true → (text_lt s t ≡ true) ⊎ (text_lt t u ≡ true)
unfolding text_lt
text_lt_cotrans [] [] u h = ground arith
text_lt_cotrans [] (y ∷ ys) u h = ground arith
text_lt_cotrans (x ∷ xs) t [] h = ground arith
text_lt_cotrans (x ∷ xs) [] (z ∷ zs) h = ground arith
text_lt_cotrans (x ∷ xs) (y ∷ ys) (z ∷ zs) h = ground (arith, text_lt_cotrans xs ys zs)

-- Behind parts of one length, what follows decides only where the parts are equal.
pub text_lt-append :
    (s t u v : Text)
    → length s ≡ length t
    → text_lt (s ++ u) (t ++ v) ≡ (text_lt s t || (text_eq s t && text_lt u v))
unfolding text_lt text_eq
text_lt-append [] [] u v e = refl
text_lt-append [] (y ∷ t) u v e = ground (arith, e)
text_lt-append (x ∷ s) [] u v e = ground (arith, e)
text_lt-append (x ∷ s) (y ∷ t) u v e = ground (arith, text_lt-append s t u v)
