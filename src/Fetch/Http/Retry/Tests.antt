-- ===== src/Fetch/Http/Retry/Tests.antt =====
-- Concrete headers, failures and retry loops.
use localdb.Prelude.{
  ℕ, ◌+◌, ◌-◌, ◌*◌, ◌≤◌, ◌≡◌, refl, arith, true, false, Option, none, some, List, [], ◌∷◌, Text,
  codes, length,
}
use localdb.Fetch.Http.{from_secs, from_millis}
use localdb.Fetch.Http.Retry.{
  RetryError, status, RequestError, request, is_transient, parse_retry_after, sleeps,
  retry_after_adjuster, candidate, grant, parse_u64, trim_start, trim_end, parse_digits,
}
use localdb.Fetch.Http.Retry.Budget.{total, sleeps-total}
use localdb.Fetch.Http.Retry.Parsing.{
  parse_retry_after-value, parse_retry_after-le, is_transient-request,
}

abbrev no_date : Text → Option ℕ
no_date value = none

-- Two failures without a header, and delays of `backon` that are no whole milliseconds.
abbrev failing : List (RetryError × Option ℕ)
failing = (status 503 none, some 1500000) ∷ (status 503 none, some 2000000) ∷ []

sleeps-total_example :
    total (sleeps (from_millis 3) failing 0)
    ≤ from_millis 3 + (length (sleeps (from_millis 3) failing 0) - 1) * 999999
sleeps-total_example = sleeps-total (from_millis 3) failing (omega arith)

-- They sleep half a millisecond above a budget of three.
sleeps_over : total (sleeps (from_millis 3) failing 0) ≡ from_millis 3 + 500000
unfolding sleeps retry_after_adjuster candidate grant
sleeps_over = refl

parse_retry_after-value_example : parse_retry_after no_date (codes "300") 0 ≡ some (from_secs 120)
parse_retry_after-value_example =
    parse_retry_after-value no_date 51 (codes "00") 0 (omega arith, omega arith)
      ((omega arith, omega arith), ((omega arith, omega arith), tt)) (omega arith)

parse_retry_after-le_example : from_secs 7 ≤ from_secs 120
unfolding parse_retry_after parse_u64 trim_start trim_end parse_digits
parse_retry_after-le_example = parse_retry_after-le no_date (codes " 7 ") 0 (from_secs 7) refl

abbrev refused_connection : RequestError
refused_connection = record {
  chain = false ∷ true ∷ [];
  is_timeout = false;
  is_connect = true;
  is_body = false;
  is_decode = false;
}

is_transient-request_example : is_transient (request refused_connection) ≡ false
is_transient-request_example = is_transient-request refused_connection (false ∷ []) [] refl
