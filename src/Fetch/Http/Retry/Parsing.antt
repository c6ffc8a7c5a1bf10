-- ===== src/Fetch/Http/Retry/Parsing.antt =====
-- What `parse_retry_after` reads, and which failures `is_transient` refuses.
use localdb.Prelude.{
  ℕ, ◌+◌, ◌-◌, ◌*◌, ◌^◌, ◌<◌, ◌≤◌, ◌≡◌, refl, inl, inr, Bool, true, false, Option, some, List, [],
  ◌∷◌, ◌++◌, Text, min, arith, Option-cases, All,
}
use localdb.Fetch.Destination.{is_blocked_error}
use localdb.Fetch.Http.{from_secs}
use localdb.Fetch.Http.Retry.{
  trim_start, trim_end, parse_digits, parse_u64, parse_retry_after, retry_after_parse_cap,
  RequestError, request, is_transient,
}

abbrev pub IsDigit : ℕ → Type 0
IsDigit c = (48 ≤ c) × (c ≤ 57)

-- The number that a text of digits writes, after those read before.
abbrev pub value : Text → ℕ → ℕ
value [] n = n
value (c ∷ s) n = value s (n * 10 + (c - 48))

value-le : (s : Text) (n : ℕ) → n ≤ value s n
value-le [] n = omega arith
value-le (c ∷ s) n = omega (arith, value-le s (n * 10 + (c - 48)))

parse_digits-value :
    (s : Text) (n : ℕ) → All IsDigit s → value s n < 2 ^ 64 → parse_digits s n ≡ some (value s n)
unfolding parse_digits
parse_digits-value [] n d h = refl
parse_digits-value (c ∷ s) n (dc, ds) h =
    ground (arith, value-le s (n * 10 + (c - 48)), parse_digits-value s (n * 10 + (c - 48)) ds h)

trim_end-digits : (s : Text) → All IsDigit s → trim_end s ≡ s
unfolding trim_end
trim_end-digits [] d = refl
trim_end-digits (c ∷ []) (dc, d) = ground arith
trim_end-digits (c ∷ b ∷ s) (dc, d) = rw (trim_end-digits (b ∷ s) d, trim_end) refl

trim-digits : (c : ℕ) (s : Text) → All IsDigit (c ∷ s) → trim_end (trim_start (c ∷ s)) ≡ c ∷ s
unfolding trim_start
trim-digits c s d =
    let starts : trim_start (c ∷ s) ≡ c ∷ s = ground (arith, d.0) in
    rw starts (trim_end-digits (c ∷ s) d)

parse_u64-value :
    (c : ℕ) (s : Text)
    → All IsDigit (c ∷ s)
    → value (c ∷ s) 0 < 2 ^ 64
    → parse_u64 (c ∷ s) ≡ some (value (c ∷ s) 0)
unfolding parse_u64
parse_u64-value c s d h = ground (arith, d.0, parse_digits-value (c ∷ s) 0 d h)

-- A header that is a number of seconds below 2 ^ 64, in digits alone, is read as that number, cut
-- to two minutes, whatever the date parser makes of it.
pub parse_retry_after-value :
    (parse_http_date : Text → Option ℕ) (c : ℕ) (s : Text) (now : ℕ)
    → IsDigit c
    → All IsDigit s
    → value (c ∷ s) 0 < 2 ^ 64
    → parse_retry_after parse_http_date (c ∷ s) now
      ≡ some (min (from_secs (value (c ∷ s) 0)) retry_after_parse_cap)
unfolding parse_retry_after
parse_retry_after-value parse_http_date c s now dc ds h =
    rw (trim-digits c s (dc, ds), parse_u64-value c s (dc, ds) h, parse_retry_after) refl

-- No header is read as more than two minutes.
pub parse_retry_after-le :
    (parse_http_date : Text → Option ℕ) (text : Text) (now d : ℕ)
    → parse_retry_after parse_http_date text now ≡ some d
    → d ≤ from_secs 120
unfolding parse_retry_after
parse_retry_after-le parse_http_date text now d h =
    elim (Option-cases (parse_u64 (trim_end (trim_start text)))) [
      | inr (secs, e) ↦ ground (arith, rw (e, parse_retry_after) at h)
      | inl e ↦ elim (Option-cases (parse_http_date (trim_end (trim_start text)))) [
        | inl f ↦ ground (arith, rw (e, f, parse_retry_after) at h)
        | inr (at, f) ↦ ground (arith, rw (e, f, parse_retry_after) at h)
      ]
    ]

is_blocked_error-append :
    (before after : List Bool) → is_blocked_error (before ++ true ∷ after) ≡ true
unfolding is_blocked_error
is_blocked_error-append [] after = refl
is_blocked_error-append (b ∷ before) after = ground (arith, is_blocked_error-append before after)

-- A request error is never retried if the marker of a blocked destination stands anywhere in its
-- chain of sources, though it is a timeout or a connection failure as well.
pub is_transient-request :
    (e : RequestError) (before after : List Bool)
    → e.chain ≡ before ++ true ∷ after
    → is_transient (request e) ≡ false
unfolding is_transient
is_transient-request e before after h = ground (arith, is_blocked_error-append before after)
