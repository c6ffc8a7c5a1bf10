-- ===== src/Fetch/Http/Retry.antt =====
-- fetch/src/http/retry.rs: what is retried, and how long the retry loop of one request sleeps.
-- The header values it parses are ASCII: `HeaderValue::to_str` refuses all others.
pub mod Parsing
pub mod Budget
mod Tests
use localdb.Prelude.{
  ℕ, ◌+◌, ◌*◌, ◌-◌, ◌/◌, ◌%◌, ◌^◌, Bool, true, false, not, ◌&&◌, ◌||◌, Option, none, some, List, [],
  ◌∷◌, Text, ltb, leb, ◌==◌, min, max, if◌then◌else◌,
}
use localdb.Fetch.Destination.{is_blocked_error}
use localdb.Fetch.Http.{HttpSettings, from_secs, from_millis, max_duration, saturating_mul}

abbrev pub retry_after_parse_cap : ℕ
retry_after_parse_cap = from_secs 120

abbrev pub is_whitespace : ℕ → Bool
is_whitespace c = (leb 9 c && leb c 13) || c == 32

unfoldable pub trim_start : Text → Text
trim_start [] = []
trim_start (c ∷ s) = let rest = trim_start s in if is_whitespace c then rest else c ∷ s

unfoldable pub trim_end : Text → Text
trim_end [] = []
trim_end (c ∷ s) = elim (trim_end s) [
  | [] ↦ if is_whitespace c then [] else c ∷ []
  | x ∷ xs ↦ c ∷ x ∷ xs
]

-- The loop of `u64::from_str`: each digit by a checked multiplication and a checked addition.
unfoldable pub parse_digits : Text → ℕ → Option ℕ
parse_digits [] n = some n
parse_digits (c ∷ s) n =
    let next = n * 10 + (c - b'0') in
    let rest = parse_digits s next in
    if (leb b'0' c && leb c b'9') && ltb next (2 ^ 64) then rest else none

abbrev pub nonempty_digits : Text → Option ℕ
nonempty_digits [] = none
nonempty_digits (c ∷ s) = parse_digits (c ∷ s) 0

-- `str::parse::<u64>`, which takes one leading plus sign.
unfoldable pub parse_u64 : Text → Option ℕ
parse_u64 [] = none
parse_u64 (c ∷ s) = if c == b'+' then nonempty_digits s else nonempty_digits (c ∷ s)

-- The date parser is the `httpdate` crate's: it gives the date as a time on the clock of `now`.
module _ (parse_http_date : Text → Option ℕ) where
  unfoldable pub parse_retry_after : Text → ℕ → Option ℕ
  parse_retry_after text now =
      let value = trim_end (trim_start text) in
      elim (parse_u64 value) [
        | some secs ↦ some (min (from_secs secs) retry_after_parse_cap)
        | none ↦ elim (parse_http_date value) [
          | none ↦ none
          | some at ↦ some (min (at - now) retry_after_parse_cap)
        ]
      ]

abbrev pub inline_retry_after_cap : ℕ
inline_retry_after_cap = from_secs 30

abbrev pub max_delay_ratio : ℕ
max_delay_ratio = 30

abbrev pub total_delay_ratio : ℕ
total_delay_ratio = 30

-- What `backon`'s builder is configured with.
pub record ExponentialBuilder : Type 0 where
  pub jitter : Bool
  pub min_delay : ℕ
  pub max_delay : ℕ
  pub max_times : ℕ

unfoldable pub retry_policy : HttpSettings → ExponentialBuilder
retry_policy cfg = record {
  jitter = true;
  min_delay = cfg.min_retry_delay;
  max_delay = max (saturating_mul cfg.min_retry_delay max_delay_ratio) cfg.min_retry_delay;
  max_times = cfg.max_retries;
}

unfoldable pub total_retry_budget : HttpSettings → ℕ
total_retry_budget cfg =
    max (saturating_mul cfg.min_retry_delay total_delay_ratio) cfg.min_retry_delay

-- What the predicates of `reqwest::Error` answer, and which errors of its chain are the marker of a
-- blocked destination.
pub record RequestError : Type 0 where
  pub chain : List Bool
  pub is_timeout : Bool
  pub is_connect : Bool
  pub is_body : Bool
  pub is_decode : Bool

pub data RetryError : Type 0 where
  status : ℕ → Option ℕ → RetryError
  request : RequestError → RetryError

unfoldable pub is_transient : RetryError → Bool
is_transient (status s retry_after) = s == 429 || (s == 408 || (leb 500 s && ltb s 600))
is_transient (request e) =
    if is_blocked_error e.chain
    then false
    else e.is_timeout || (e.is_connect || (e.is_body || e.is_decode))

-- The candidate wait: a `Retry-After` that is not over the cap, or `backon`'s own delay.
unfoldable pub candidate : RetryError → ℕ → Option ℕ
candidate (status s (some retry_after)) backons_delay =
    if ltb inline_retry_after_cap retry_after then none else some retry_after
candidate (status s none) backons_delay = some backons_delay
candidate (request e) backons_delay = some backons_delay

-- `Duration` addition panics above `Duration::MAX`.
pub data Adjusted : Type 0 where
  stop : Adjusted
  panic : Adjusted
  sleep : ℕ → ℕ → Adjusted

-- The charge: `as_millis() as u64`, added with wrap-around.
abbrev pub charge : ℕ → ℕ → ℕ
charge spent_millis wait = (spent_millis + wait / 1000000 % 2 ^ 64) % 2 ^ 64

unfoldable pub grant : ℕ → ℕ → ℕ → Adjusted
grant total_budget wait spent_millis =
    if ltb max_duration (from_millis spent_millis + wait)
    then panic
    else if ltb total_budget (from_millis spent_millis + wait)
    then stop
    else sleep wait (charge spent_millis wait)

-- One call of the closure, its counter passed on: `sleep` holds the wait and the new counter.
unfoldable pub retry_after_adjuster : ℕ → RetryError → Option ℕ → ℕ → Adjusted
retry_after_adjuster total_budget e none spent_millis = stop
retry_after_adjuster total_budget e (some backons_delay) spent_millis =
    elim (candidate e backons_delay) [
      | none ↦ stop
      | some wait ↦ grant total_budget wait spent_millis
    ]

-- The sleeps of one retry loop, whose attempts fail one after the other with these errors while
-- `backon` proposes these delays. The loop ends when the closure does not answer a delay.
unfoldable pub sleeps : ℕ → List (RetryError × Option ℕ) → ℕ → List ℕ
sleeps total_budget [] spent_millis = []
sleeps total_budget ((e, dur) ∷ attempts) spent_millis =
    elim (retry_after_adjuster total_budget e dur spent_millis) [
      | stop ↦ []
      | panic ↦ []
      | sleep wait spent_millis' ↦ wait ∷ sleeps total_budget attempts spent_millis'
    ]
