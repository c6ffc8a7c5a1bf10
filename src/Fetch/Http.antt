-- ===== src/Fetch/Http.antt =====
-- Pacing and retries of outbound requests (fetch/src/http): the settings, and `Duration` as a whole
-- number of nanoseconds.
pub mod Retry
pub mod Limiter
use localdb.Prelude.{ℕ, ◌*◌, ◌+◌, Option, Text, min}

abbrev pub from_secs : ℕ → ℕ
from_secs s = s * 1000000000

abbrev pub from_millis : ℕ → ℕ
from_millis s = s * 1000000

-- `Duration::MAX`: 2 ^ 64 - 1 seconds and 999 999 999 nanoseconds.
abbrev pub max_duration : ℕ
max_duration = from_secs 18446744073709551615 + 999999999

abbrev pub saturating_mul : ℕ → ℕ → ℕ
saturating_mul d n = min (d * n) max_duration

pub record HttpSettings : Type 0 where
  pub user_agent : Option Text
  pub max_retries : ℕ
  pub requests_per_second : ℕ
  pub burst : ℕ
  pub min_retry_delay : ℕ
