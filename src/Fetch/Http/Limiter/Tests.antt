-- ===== src/Fetch/Http/Limiter/Tests.antt =====
-- A host that asked for two minutes, on a bucket of one token a second for all hosts.
use localdb.Prelude.{ℕ, ◌≤◌, refl, arith, Option, none, some, List, [], ◌∷◌, Text, codes, max, ◌+◌}
use localdb.Fetch.Destination.{IpAddr, ip_literal_host}
use localdb.Fetch.Http.{from_secs}
use localdb.Fetch.Http.Limiter.{HostLimiter, acquire, note_retry_after, cooldown_wait, should_pace}
use localdb.Fetch.Http.Limiter.Deadlines.{
  Section, notes, takes, counts, perform_all, acquire-note_retry_after, cooldown_wait-perform_all,
}

-- The time of the next token.
abbrev ready : Text → ℕ → ℕ → ℕ × ℕ
ready host now g = (max now g, max now g + from_secs 1)

abbrev same : ℕ → ℕ → ℕ
same now g = g

abbrev no_literal : Text → Option IpAddr
no_literal host = none

abbrev unnamed : IpAddr → Text
unnamed ip = codes "ip"

abbrev empty : HostLimiter ℕ
empty = record { bucket = 0; cooldowns = []; acquire_count = 0 }

abbrev later_sections : List Section
later_sections =
    notes (codes "h") (from_secs 1) 10 ∷ takes (codes "h") 20 ∷ counts (codes "h") 20 ∷ []

acquire-note_retry_after_example :
    5 + from_secs 60
    ≤ (acquire ready same no_literal unnamed (some (codes "H")) 30 (
        perform_all ready same no_literal unnamed later_sections
          (note_retry_after (codes "H") (from_secs 120) 5 empty))).0
unfolding should_pace ip_literal_host
acquire-note_retry_after_example =
    acquire-note_retry_after ready same no_literal unnamed (codes "H") (from_secs 120) 5 30
      later_sections empty (λ k t g. omega arith) tt
      (omega arith, (omega arith, (omega arith, omega arith))) refl

cooldown_wait-perform_all_example :
    cooldown_wait (codes "h") 30 (perform_all ready same no_literal unnamed later_sections empty)
    ≤ from_secs 60
cooldown_wait-perform_all_example =
    cooldown_wait-perform_all ready same no_literal unnamed later_sections 0 0 5 30 (codes "h")
      (omega arith, (omega arith, (omega arith, omega arith)))
