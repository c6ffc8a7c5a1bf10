-- ===== src/Core/Errors.antt =====
-- The error taxonomy of core/src/error.rs: `Error`, its stable codes, the messages that cross a
-- process boundary, and the exit codes.
pub mod Wire
mod Tests
use localdb.Prelude.{
  ℕ, ◌++◌, ◌≡◌, refl, ◌⊎◌, inl, inr, Option, none, some, Bool, true, false, Text, codes, text_eq,
  unwrap_or, if◌then◌else◌, arith,
}

pub data Error : Type 0 where
  store_not_found : Text → Error
  source_not_found : Text → Error
  resource_not_found : Text → Error
  job_not_found : Text → Error
  runtime_state_locked : Error
  daemon_running : Error
  daemon_unreachable : Error
  invalid_config : Text → Error
  invalid_request : Text → Error
  unsupported_format : Text → Error
  extraction_failed : Text → Text → Error
  provider_unavailable : Text → Error
  model_missing : Text → Error
  daemon_capability_unavailable : Text → Error
  index_in_progress : Error
  job_cancelled : Error
  job_already_terminal : Error
  internal : Text → Text → Error
  rate_limited : Text → Error

-- `Result<A, E>`, the error first.
pub data Result {ℓ κ} (E : Type ℓ) (A : Type κ) : Type (ℓ ⊔ κ) where
  ok : A → Result E A
  err : E → Result E A

pub Result-cases {ℓ κ} :
    {E : Type ℓ} {A : Type κ} (r : Result E A) → ((e : E) × (r ≡ err e)) ⊎ ((a : A) × (r ≡ ok a))
Result-cases (ok a) = inr (a, refl)
Result-cases (err e) = inl (e, refl)

unfoldable pub code : Error → Text
code (store_not_found id) = codes "store_not_found"
code (source_not_found id) = codes "source_not_found"
code (resource_not_found id) = codes "resource_not_found"
code (job_not_found id) = codes "job_not_found"
code runtime_state_locked = codes "runtime_state_locked"
code daemon_running = codes "daemon_running"
code daemon_unreachable = codes "daemon_unreachable"
code (invalid_config message) = codes "invalid_config"
code (invalid_request message) = codes "invalid_request"
code (unsupported_format format) = codes "unsupported_format"
code (extraction_failed format reason) = codes "extraction_failed"
code (provider_unavailable message) = codes "provider_unavailable"
code (model_missing message) = codes "model_missing"
code (daemon_capability_unavailable message) = codes "daemon_capability_unavailable"
code index_in_progress = codes "index_in_progress"
code job_cancelled = codes "job_cancelled"
code job_already_terminal = codes "job_already_terminal"
code (internal message correlation_id) = codes "internal"
code (rate_limited message) = codes "rate_limited"

-- The `match` of `from_code`, arm by arm; the last arm is `_ => return None`.
unfoldable pub from_code : Text → Text → Option Error
unfolding text_eq
from_code c message =
    if text_eq c (codes "store_not_found")
    then some (store_not_found message)
    else if text_eq c (codes "source_not_found")
    then some (source_not_found message)
    else if text_eq c (codes "resource_not_found")
    then some (resource_not_found message)
    else if text_eq c (codes "document_not_found")
    then some (resource_not_found message)
    else if text_eq c (codes "job_not_found")
    then some (job_not_found message)
    else if text_eq c (codes "runtime_state_locked")
    then some runtime_state_locked
    else if text_eq c (codes "daemon_running")
    then some daemon_running
    else if text_eq c (codes "daemon_unreachable")
    then some daemon_unreachable
    else if text_eq c (codes "invalid_config")
    then some (invalid_config message)
    else if text_eq c (codes "invalid_request")
    then some (invalid_request message)
    else if text_eq c (codes "index_in_progress")
    then some index_in_progress
    else if text_eq c (codes "job_cancelled")
    then some job_cancelled
    else if text_eq c (codes "job_already_terminal")
    then some job_already_terminal
    else if text_eq c (codes "provider_unavailable")
    then some (provider_unavailable message)
    else if text_eq c (codes "daemon_capability_unavailable")
    then some (daemon_capability_unavailable message)
    else if text_eq c (codes "model_missing")
    then some (model_missing message)
    else if text_eq c (codes "rate_limited")
    then some (rate_limited message)
    else none

unfoldable pub raw_message : Error → Option Text
raw_message (store_not_found id) = some id
raw_message (source_not_found id) = some id
raw_message (resource_not_found id) = some id
raw_message (job_not_found id) = some id
raw_message (invalid_config message) = some message
raw_message (invalid_request message) = some message
raw_message (provider_unavailable message) = some message
raw_message (daemon_capability_unavailable message) = some message
raw_message (model_missing message) = some message
raw_message (rate_limited message) = some message
raw_message runtime_state_locked = none
raw_message daemon_running = none
raw_message daemon_unreachable = none
raw_message (unsupported_format format) = none
raw_message (extraction_failed format reason) = none
raw_message index_in_progress = none
raw_message job_cancelled = none
raw_message job_already_terminal = none
raw_message (internal message correlation_id) = none

-- The `#[error(...)]` attributes: `to_string()`.
unfoldable pub display : Error → Text
display (store_not_found id) = codes "store not found: " ++ id
display (source_not_found id) = codes "source not found: " ++ id
display (resource_not_found id) = codes "resource not found: " ++ id
display (job_not_found id) = codes "job not found: " ++ id
display runtime_state_locked =
    codes "runtime-state database write lock could not be acquired within the busy timeout; "
    ++ codes "try again shortly"
display daemon_running = codes "daemon is already running"
display daemon_unreachable = codes "daemon is unreachable"
display (invalid_config message) = codes "invalid config: " ++ message
display (invalid_request message) = codes "invalid request: " ++ message
display (unsupported_format format) = codes "unsupported format: " ++ format
display (extraction_failed format reason) =
    codes "extraction failed for " ++ (format ++ (codes ": " ++ reason))
display (provider_unavailable message) = codes "provider unavailable: " ++ message
display (model_missing message) = codes "model missing: " ++ message
display (daemon_capability_unavailable message) = codes "daemon capability unavailable: " ++ message
display index_in_progress = codes "index already in progress for this scope"
display job_cancelled = codes "job was cancelled"
display job_already_terminal = codes "job already reached a terminal state; cannot cancel"
display (internal message correlation_id) =
    codes "internal error (correlation_id=" ++ (correlation_id ++ (codes "): " ++ message))
display (rate_limited message) = codes "rate limited: " ++ message

unfoldable pub exit_code : Error → ℕ
exit_code (internal message correlation_id) = 1
exit_code (invalid_config message) = 2
exit_code (invalid_request message) = 2
exit_code (store_not_found id) = 3
exit_code (source_not_found id) = 3
exit_code (resource_not_found id) = 3
exit_code (job_not_found id) = 3
exit_code runtime_state_locked = 4
exit_code daemon_running = 4
exit_code index_in_progress = 4
exit_code job_cancelled = 4
exit_code job_already_terminal = 4
exit_code daemon_unreachable = 5
exit_code (daemon_capability_unavailable message) = 5
exit_code (provider_unavailable message) = 5
exit_code (model_missing message) = 5
exit_code (rate_limited message) = 5
exit_code (unsupported_format format) = 2
exit_code (extraction_failed format reason) = 2

-- The variants whose fields do not fit a single message: no code stands for them on the wire.
abbrev pub is_opaque : Error → Bool
is_opaque (unsupported_format format) = true
is_opaque (extraction_failed format reason) = true
is_opaque (internal message correlation_id) = true
is_opaque e = false
