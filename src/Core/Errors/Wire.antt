-- ===== src/Core/Errors/Wire.antt =====
-- What survives of an error that crosses a process boundary as a code and a message.
use localdb.Prelude.{◌≡◌, refl, Option, none, some, true, Text, unwrap_or, if◌then◌else◌}
use localdb.Core.Errors.{
  Error, store_not_found, source_not_found, resource_not_found, job_not_found, runtime_state_locked,
  daemon_running, daemon_unreachable, invalid_config, invalid_request, unsupported_format,
  extraction_failed, provider_unavailable, model_missing, daemon_capability_unavailable,
  index_in_progress, job_cancelled, job_already_terminal, internal, rate_limited, code, from_code,
  raw_message, display, exit_code, is_opaque,
}

-- The message that a producer stores: the bare one, or the displayed text where there is none.
abbrev pub wire_message : Error → Text
wire_message e = unwrap_or (raw_message e) (display e)

-- Every error is decoded to itself from its code and its stored message, but for the three
-- variants whose fields no single message holds: their codes are not recognised.
pub from_code-code :
    (e : Error) → from_code (code e) (wire_message e) ≡ (if is_opaque e then none else some e)
unfolding from_code code raw_message
from_code-code (store_not_found id) = refl
from_code-code (source_not_found id) = refl
from_code-code (resource_not_found id) = refl
from_code-code (job_not_found id) = refl
from_code-code runtime_state_locked = refl
from_code-code daemon_running = refl
from_code-code daemon_unreachable = refl
from_code-code (invalid_config message) = refl
from_code-code (invalid_request message) = refl
from_code-code (unsupported_format format) = refl
from_code-code (extraction_failed format reason) = refl
from_code-code (provider_unavailable message) = refl
from_code-code (model_missing message) = refl
from_code-code (daemon_capability_unavailable message) = refl
from_code-code index_in_progress = refl
from_code-code job_cancelled = refl
from_code-code job_already_terminal = refl
from_code-code (internal message correlation_id) = refl
from_code-code (rate_limited message) = refl

-- Whether two optional errors agree on what a caller scripts against: the code and the exit status.
abbrev pub SameFace : Error → Option Error → Type 0
SameFace e none = is_opaque e ≡ true
SameFace e (some f) = (code f ≡ code e) × (exit_code f ≡ exit_code e)

-- Whatever message travels with a code, an error that is decoded from it has the code and the exit
-- status of the error that was sent; the codes that are not recognised are those of the three
-- opaque variants.
pub from_code-SameFace : (e : Error) (message : Text) → SameFace e (from_code (code e) message)
unfolding from_code code exit_code
from_code-SameFace (store_not_found id) m = (refl, refl)
from_code-SameFace (source_not_found id) m = (refl, refl)
from_code-SameFace (resource_not_found id) m = (refl, refl)
from_code-SameFace (job_not_found id) m = (refl, refl)
from_code-SameFace runtime_state_locked m = (refl, refl)
from_code-SameFace daemon_running m = (refl, refl)
from_code-SameFace daemon_unreachable m = (refl, refl)
from_code-SameFace (invalid_config message) m = (refl, refl)
from_code-SameFace (invalid_request message) m = (refl, refl)
from_code-SameFace (unsupported_format format) m = refl
from_code-SameFace (extraction_failed format reason) m = refl
from_code-SameFace (provider_unavailable message) m = (refl, refl)
from_code-SameFace (model_missing message) m = (refl, refl)
from_code-SameFace (daemon_capability_unavailable message) m = (refl, refl)
from_code-SameFace index_in_progress m = (refl, refl)
from_code-SameFace job_cancelled m = (refl, refl)
from_code-SameFace job_already_terminal m = (refl, refl)
from_code-SameFace (internal message correlation_id) m = refl
from_code-SameFace (rate_limited message) m = (refl, refl)
