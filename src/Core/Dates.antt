-- ===== src/Core/Dates.antt =====
-- Partial dates: core/src/dates.rs. `str::trim` and the parser of RFC 3339 in chrono are arguments.
pub mod Filters
pub mod Stable
mod Tests
use localdb.Prelude.{
  ℕ, zero, suc, ◌+◌, ◌*◌, ◌-◌, Option, none, some, List, [], ◌∷◌, ◌++◌, Bool, true, false, not,
  ◌&&◌, ◌||◌, Text, codes, text_eq, ltb, leb, ◌==◌, length, take, if◌then◌else◌,
}

abbrev pub is_ascii_digit : ℕ → Bool
is_ascii_digit b = leb 48 b && leb b 57

abbrev pub all_digits : List ℕ → Bool
all_digits [] = true
all_digits (b ∷ bs) = let rest = all_digits bs in if is_ascii_digit b then rest else false

-- The value of a row of digits.
abbrev pub value_of_digits : ℕ → List ℕ → ℕ
value_of_digits acc [] = acc
value_of_digits acc (b ∷ bs) = value_of_digits (acc * 10 + (b - 48)) bs

unfoldable pub digits_in_range : List ℕ → ℕ → ℕ → Option ℕ
digits_in_range bytes lo hi =
    let value = value_of_digits 0 bytes in
    if all_digits bytes then (if leb lo value && leb value hi then some value else none) else none

abbrev pub drop : ℕ → Text → Text
drop zero s = s
drop (suc n) [] = []
drop (suc n) (x ∷ s) = drop n s

-- `&bytes[from..upto]`, of which the bounds were tested.
abbrev pub slice : ℕ → ℕ → Text → Text
slice from upto s = take (upto - from) (drop from s)

-- The byte at an index that was tested.
abbrev pub byte_at : ℕ → Text → ℕ
byte_at n [] = 0
byte_at zero (x ∷ s) = x
byte_at (suc n) (x ∷ s) = byte_at n s

unfoldable pub day_prefix : Text → Option ℕ
unfolding digits_in_range
day_prefix s =
    if ltb (length s) 10 || not (byte_at 7 s == 45)
    then none
    else elim (digits_in_range (slice 8 10 s) 1 31) [ none ↦ none | some day ↦ some 10 ]

unfoldable pub month_prefix : Text → Option ℕ
unfolding digits_in_range day_prefix
month_prefix s =
    if ltb (length s) 7 || not (byte_at 4 s == 45)
    then none
    else elim (digits_in_range (slice 5 7 s) 1 12) [
      | none ↦ none
      | some month ↦ if length s == 7 then some 7 else day_prefix s
    ]

unfoldable pub partial_date_prefix_len : Text → Option ℕ
unfolding month_prefix
partial_date_prefix_len s =
    if ltb (length s) 4 || not (all_digits (slice 0 4 s))
    then none
    else if length s == 4
    then some 4
    else month_prefix s

-- Whether a tail completes a date; `is_datetime` is `DateTime::parse_from_rfc3339` of a text.
abbrev pub validate_full_datetime_tail : (Text → Bool) → Text → Bool
validate_full_datetime_tail is_datetime rest = is_datetime (codes "2000-01-01T" ++ rest)

-- `parse_partial_iso8601` of a trimmed text.
unfoldable pub date_of : (Text → Bool) → Text → Option ℕ → Option Text
date_of is_datetime s none = none
date_of is_datetime s (some len) =
    if length s == len
    then some (take len s)
    else if not (byte_at len s == 84) && not (byte_at len s == 116)
    then none
    else if validate_full_datetime_tail is_datetime (drop (len + 1) s)
    then some (take len s)
    else none

unfoldable pub parse_partial_iso8601 : (Text → Text) → (Text → Bool) → Text → Option Text
unfolding date_of partial_date_prefix_len
parse_partial_iso8601 trim is_datetime raw = elim (trim raw) [
  | [] ↦ none
  | x ∷ s ↦ date_of is_datetime (x ∷ s) (partial_date_prefix_len (x ∷ s))
]

-- A byte against a byte of the pattern, of which 68 is the letter for a digit.
abbrev fits : List ℕ → Text → Bool
fits [] s = true
fits (want ∷ pattern) [] = true
fits (want ∷ pattern) (got ∷ s) =
    let rest = fits pattern s in
    if (if want == 68 then is_ascii_digit got else got == want) then rest else false

unfoldable pub is_canonical_timestamp : Text → Bool
is_canonical_timestamp s =
    length s == length (codes "DDDD-DD-DDTDD:DD:DDZ") && fits (codes "DDDD-DD-DDTDD:DD:DDZ") s

unfoldable pub widen_date_upper_bound : Text → Text
widen_date_upper_bound value =
    if length value == 4
    then value ++ codes "-12-31T23:59:59Z"
    else if length value == 7
    then value ++ codes "-31T23:59:59Z"
    else if length value == 10
    then value ++ codes "T23:59:59Z"
    else value

-- `parse_date_or_datetime` of a trimmed text; `in_utc` is `DateTime::parse_from_rfc3339` of a text with
-- the answer moved to UTC and rendered to the second.
unfoldable pub bound_of : (Text → Option Text) → Text → Option ℕ → Option Text
unfolding is_canonical_timestamp
bound_of in_utc s none = none
bound_of in_utc s (some len) =
    if length s == len
    then some (take len s)
    else if not (byte_at len s == 84) && not (byte_at len s == 116)
    then none
    else elim (in_utc s) [
      | none ↦ none
      | some normalized ↦ if is_canonical_timestamp normalized then some normalized else none
    ]

unfoldable pub parse_date_or_datetime : (Text → Text) → (Text → Option Text) → Text → Option Text
unfolding bound_of partial_date_prefix_len
parse_date_or_datetime trim in_utc raw = elim (trim raw) [
  | [] ↦ none
  | x ∷ s ↦ bound_of in_utc (x ∷ s) (partial_date_prefix_len (x ∷ s))
]
