-- ===== src/Core/Dates/Stable.antt =====
-- The normal forms that the parser of core/src/dates.rs gives.
use localdb.Prelude.{
  ℕ, zero, suc, ◌-◌, ◌<◌, ◌≤◌, ◌≡◌, ◌⊎◌, refl, sym, ◌∙◌, ap, inl, inr, Option, none, some, [], ◌∷◌,
  Bool, arith, Text, length, take, length-take,
}
use localdb.Core.Dates.{
  drop, slice, byte_at, day_prefix, month_prefix, partial_date_prefix_len, date_of,
  parse_partial_iso8601,
}

take-all : (n : ℕ) (s : Text) → length s ≡ n → take n s ≡ s
take-all zero [] e = refl
take-all zero (x ∷ s) e = ground (arith, e)
take-all (suc n) [] e = refl
take-all (suc n) (x ∷ s) e = ap (λ r. x ∷ r) (take-all n s (omega (arith, e)))

take-take : (m n : ℕ) (s : Text) → m ≤ n → take m (take n s) ≡ take m s
take-take zero n s le = refl
take-take (suc m) zero s le = absurd (omega (arith, le))
take-take (suc m) (suc n) [] le = refl
take-take (suc m) (suc n) (x ∷ s) le = ap (λ r. x ∷ r) (take-take m n s (omega (arith, le)))

take-none : (n : ℕ) → take {A = ℕ} n [] ≡ []
take-none zero = refl
take-none (suc n) = refl

drop-take : (k n : ℕ) (s : Text) → drop k (take n s) ≡ take (n - k) (drop k s)
drop-take zero zero s = refl
drop-take zero (suc n) s = let whole : suc n - 0 ≡ suc n = omega arith in rw whole refl
drop-take (suc k) zero s = ground arith
drop-take (suc k) (suc n) [] = sym (take-none (suc n - suc k))
drop-take (suc k) (suc n) (x ∷ s) = ground (arith, drop-take k n s)

byte_at-take : (i n : ℕ) (s : Text) → i < n → byte_at i (take n s) ≡ byte_at i s
byte_at-take i zero s le = absurd (omega (arith, le))
byte_at-take zero (suc n) [] le = refl
byte_at-take (suc i) (suc n) [] le = refl
byte_at-take zero (suc n) (x ∷ s) le = refl
byte_at-take (suc i) (suc n) (x ∷ s) le = byte_at-take i n s (omega (arith, le))

slice-take :
    (from upto n : ℕ) (s : Text) → upto ≤ n → slice from upto (take n s) ≡ slice from upto s
slice-take from upto n s le =
    ap (take (upto - from)) (drop-take from n s)
    ∙ take-take (upto - from) (n - from) (drop from s) (omega (arith, le))

-- A length that the grammar gives is the whole of the text, or it is that of a day with a tail.
IsPrefix : Text → ℕ → Type 0
IsPrefix s n = (length s ≡ n) ⊎ ((n ≡ 10) × (10 ≤ length s))

day_prefix-len : (s : Text) (n : ℕ) → day_prefix s ≡ some n → IsPrefix s n
unfolding day_prefix IsPrefix
day_prefix-len s n e = ground (arith, e)

month_prefix-len : (s : Text) (n : ℕ) → month_prefix s ≡ some n → IsPrefix s n
unfolding month_prefix IsPrefix
month_prefix-len s n e = ground (arith, e, day_prefix-len s n)

partial_date_prefix_len-len : (s : Text) (n : ℕ) → partial_date_prefix_len s ≡ some n → IsPrefix s n
unfolding partial_date_prefix_len IsPrefix
partial_date_prefix_len-len s n e = ground (arith, e, month_prefix-len s n)

day_prefix-take : (s : Text) → 10 ≤ length s → day_prefix (take 10 s) ≡ day_prefix s
unfolding day_prefix
day_prefix-take s le =
    let size : length (take 10 s) ≡ 10 = omega (arith, length-take 10 s, le) in
    ground (arith, size, le, slice-take 8 10 10 s, byte_at-take 7 10 s)

month_prefix-take : (s : Text) → 10 ≤ length s → month_prefix (take 10 s) ≡ month_prefix s
unfolding month_prefix
month_prefix-take s le =
    let size : length (take 10 s) ≡ 10 = omega (arith, length-take 10 s, le) in
    ground (arith, size, le, slice-take 5 7 10 s, byte_at-take 4 10 s, day_prefix-take s)

partial_date_prefix_len-take :
    (s : Text) → 10 ≤ length s → partial_date_prefix_len (take 10 s) ≡ partial_date_prefix_len s
unfolding partial_date_prefix_len
partial_date_prefix_len-take s le =
    let size : length (take 10 s) ≡ 10 = omega (arith, length-take 10 s, le) in
    ground (arith, size, le, slice-take 0 4 10 s, month_prefix-take s)

-- The part of a text that the grammar accepts as a date, which it accepts alone as well.
pub accepted_alone :
    (s : Text) (n : ℕ)
    → partial_date_prefix_len s ≡ some n
    → (length (take n s) ≡ n) × (partial_date_prefix_len (take n s) ≡ some n)
unfolding IsPrefix
accepted_alone s n e = elim (partial_date_prefix_len-len s n e) [
  | inl whole ↦
      (omega (arith, length-take n s, whole), ap partial_date_prefix_len (take-all n s whole) ∙ e)
  | inr (ten, le) ↦ (
    omega (arith, length-take n s, ten, le),
    ap (λ k. partial_date_prefix_len (take k s)) ten ∙ (partial_date_prefix_len-take s le ∙ e),
  )
]

date_of-take :
    (is_datetime : Text → Bool) (s d : Text) (o : Option ℕ)
    → date_of is_datetime s o ≡ some d
    → (n : ℕ) × (o ≡ some n) × (d ≡ take n s)
unfolding date_of
date_of-take is_datetime s d none e = absurd (ground (arith, e))
date_of-take is_datetime s d (some n) e = (n, refl, ground (arith, e))

parsed-take :
    (trim : Text → Text) (is_datetime : Text → Bool) (raw d : Text)
    → parse_partial_iso8601 trim is_datetime raw ≡ some d
    → (n : ℕ) × (partial_date_prefix_len (trim raw) ≡ some n) × (d ≡ take n (trim raw))
unfolding parse_partial_iso8601
parsed-take trim is_datetime raw d e = of_trimmed (trim raw) e
  where
    of_trimmed :
        (s : Text)
        → (elim s [
          | [] ↦ none
          | x ∷ t ↦ date_of is_datetime (x ∷ t) (partial_date_prefix_len (x ∷ t))
        ])
          ≡ some d
        → (n : ℕ) × (partial_date_prefix_len s ≡ some n) × (d ≡ take n s)
    of_trimmed [] h = absurd (ground (arith, h))
    of_trimmed (x ∷ t) h = date_of-take is_datetime (x ∷ t) d (partial_date_prefix_len (x ∷ t)) h

alone :
    (is_datetime : Text → Bool) (d : Text) (n : ℕ)
    → length d ≡ n
    → date_of is_datetime d (some n) ≡ some d
unfolding date_of
alone is_datetime d n e = ground (arith, e, take-all n d e)

reparsed :
    (trim : Text → Text) (is_datetime : Text → Bool) (d : Text) (n : ℕ)
    → trim d ≡ d
    → length d ≡ n
    → partial_date_prefix_len d ≡ some n
    → parse_partial_iso8601 trim is_datetime d ≡ some d
unfolding parse_partial_iso8601
reparsed trim is_datetime [] n t e h = absurd (ground (arith, h))
reparsed trim is_datetime (x ∷ d) n t e h =
    rw (t, parse_partial_iso8601, h) (alone is_datetime (x ∷ d) n e)

-- A date that `parse_partial_iso8601` gives is a year, a month or a day of the grammar, over its
-- whole length and no tail, and the parser gives it back unchanged, as long as trimming does not
-- change it. So normalising twice is normalising once.
pub parse_partial_iso8601-stable :
    (trim : Text → Text) (is_datetime : Text → Bool) (raw d : Text)
    → parse_partial_iso8601 trim is_datetime raw ≡ some d
    → trim d ≡ d
    → (partial_date_prefix_len d ≡ some (length d))
      × (parse_partial_iso8601 trim is_datetime d ≡ some d)
parse_partial_iso8601-stable trim is_datetime raw d e t =
    let (n, h, cut) = parsed-take trim is_datetime raw d e in
    let (size, prefix) = accepted_alone (trim raw) n h in
    let long : length d ≡ n = ap length cut ∙ size in
    let short : partial_date_prefix_len d ≡ some n = ap partial_date_prefix_len cut ∙ prefix in
    (short ∙ ap some (sym long), reparsed trim is_datetime d n t long short)
