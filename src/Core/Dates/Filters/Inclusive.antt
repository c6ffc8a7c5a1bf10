-- ===== src/Core/Dates/Filters/Inclusive.antt =====
-- The bounds of the date filters of core/src/store.rs, at the precision of the bound.
use mathlib.Core.List.{append-nil}
use localdb.Prelude.{
  ℕ, ◌≡◌, ◌⊎◌, refl, sym, ◌∙◌, ap, some, [], ◌∷◌, ◌++◌, true, false, arith, Text, codes,
  text_eq_iff, text_lt, text_lt-append, length, if◌then◌else◌, ◌==◌,
}
use localdb.Core.Store.{ChunkRecord}
use localdb.Core.Dates.{widen_date_upper_bound}
use localdb.Core.Dates.Filters.{
  DateAxis, added, updated, modified, document_date, value_of, date_after, date_before, text_le,
  is_after, is_before, matches,
}

-- The latest end of a year, a month or a day.
abbrev pub latest : ℕ → Text
latest n =
    if n == 4
    then codes "-12-31T23:59:59Z"
    else if n == 7
    then codes "-31T23:59:59Z"
    else codes "T23:59:59Z"

-- The lengths of a year, a month and a day.
abbrev pub IsPrecision : ℕ → Type 0
IsPrecision n = (n ≡ 4) ⊎ ((n ≡ 7) ⊎ (n ≡ 10))

widen-latest :
    (value : Text)
    → IsPrecision (length value)
    → widen_date_upper_bound value ≡ value ++ latest (length value)
unfolding widen_date_upper_bound
widen-latest value p = ground (arith, p)

-- What the filter compares with an upper bound.
abbrev pub upper : DateAxis → Text → Text
upper document_date v = widen_date_upper_bound v
upper added v = v
upper updated v = v
upper modified v = v

text_le-prefix :
    (s t u v : Text)
    → length s ≡ length t
    → text_le u v ≡ true
    → text_le (s ++ u) (t ++ v) ≡ text_le s t
unfolding text_le
text_le-prefix s t u v e h = ground (arith, text_lt-append t s v u, text_eq_iff t s)

nothing_before : (s : Text) → text_lt s [] ≡ false
unfolding text_lt
nothing_before [] = refl
nothing_before (x ∷ s) = refl

text_le-longer : (s t u : Text) → length s ≡ length t → text_le s (t ++ u) ≡ text_le s t
unfolding text_le
text_le-longer s t u e =
    let whole : text_lt (t ++ u) (s ++ []) ≡ text_lt (t ++ u) s =
      ap (text_lt (t ++ u)) (append-nil s) in
    ground (arith, whole, text_lt-append t s u [], nothing_before u)

is_before-upper :
    (axis : DateAxis) (value v : Text)
    → is_before axis value (some v) ≡ text_le (upper axis v) (widen_date_upper_bound value)
unfolding is_before
is_before-upper added value v = refl
is_before-upper updated value v = refl
is_before-upper modified value v = refl
is_before-upper document_date value v = refl

-- A bound that is a year, a month or a day is compared with a chunk's date at the bound's own
-- precision, and is included on both sides: the lower bound holds if and only if the bound is not
-- after the date's part of that precision, and the upper bound if and only if that part is not after
-- the bound. The date starts with that part, of which a year, month or day of a document may be the
-- whole, and what follows it is not after the last second of the part.
pub matches-inclusive :
    (axis : DateAxis) (value v part rest tail : Text) (r : ChunkRecord)
    → IsPrecision (length value)
    → length part ≡ length value
    → value_of axis r ≡ some v
    → v ≡ part ++ rest
    → upper axis v ≡ part ++ tail
    → text_le tail (latest (length value)) ≡ true
    → (matches (date_after axis value) r ≡ text_le value part)
      × (matches (date_before axis value) r ≡ text_le part value)
unfolding matches is_after
matches-inclusive axis value v part rest tail r precise same has starts ends late = (
  ap (is_after value) has ∙ (ap (text_le value) starts ∙ text_le-longer value part rest (sym same)),
  ap (is_before axis value) has
      ∙ (is_before-upper axis value v
          ∙ (ap2 ends (widen-latest value precise) ∙ text_le-prefix part value tail _ same late)),
)
  where
    ap2 : {a b c d : Text} → a ≡ b → c ≡ d → text_le a c ≡ text_le b d
    ap2 {a} {b} {c} {d} p q = ap (λ x. text_le x c) p ∙ ap (text_le b) q
