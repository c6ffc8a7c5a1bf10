-- ===== src/Core/Dates/Tests.antt =====
-- The dates at concrete inputs.
use localdb.Prelude.{◌≡◌, refl, some, codes, true}
use localdb.Core.Dates.{
  digits_in_range, day_prefix, month_prefix, partial_date_prefix_len, date_of,
  parse_partial_iso8601,
}
use localdb.Core.Dates.Stable.{parse_partial_iso8601-stable}

parse_partial_iso8601-stable_example :
    (partial_date_prefix_len (codes "2026-11-31") ≡ some 10)
    × (parse_partial_iso8601 (λ s. s) (λ s. true) (codes "2026-11-31") ≡ some (codes "2026-11-31"))
unfolding parse_partial_iso8601 date_of partial_date_prefix_len month_prefix day_prefix
    digits_in_range
parse_partial_iso8601-stable_example =
    parse_partial_iso8601-stable (λ s. s) (λ s. true) (codes "2026-11-31T10:00:00Z")
      (codes "2026-11-31") refl refl
