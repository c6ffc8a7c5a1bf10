-- ===== src/Fetch/Http/Limiter.antt =====
-- fetch/src/http/limiter.rs: the pacing of outbound requests, host by host. An `Instant` is a whole
-- number of nanoseconds. The token bucket is the `governor` crate's: its state and its two
-- operations are parameters, a wait being the time at which it ends. Hosts are ASCII, as `Url`
-- writes them.
pub mod Cooldowns
pub mod Deadlines
mod Tests
use localdb.Prelude.{
  ℕ, suc, ◌+◌, ◌-◌, ◌%◌, ◌^◌, Bool, true, false, not, ◌&&◌, Option, none, some, List, [], ◌∷◌, map,
  Text, ltb, leb, ◌==◌, lookup, insert, min, max, if◌then◌else◌,
}
use localdb.Fetch.Destination.{IpAddr, is_blocked_destination, ip_literal_host}
use localdb.Fetch.Http.{from_secs}

abbrev pub cooldown_cap : ℕ
cooldown_cap = from_secs 60

abbrev pub prune_every_n_acquires : ℕ
prune_every_n_acquires = 100

abbrev pub lower : ℕ → ℕ
lower c = if leb b'A' c && leb c b'Z' then c + 32 else c

abbrev pub to_lowercase : Text → Text
to_lowercase s = map lower s

-- The limiter's own entries, with the bucket's state.
pub record HostLimiter (G : Type 0) : Type 0 where
  pub bucket : G
  pub cooldowns : List (Text × ℕ)
  pub acquire_count : ℕ

-- `entry(host).and_modify(…).or_insert(deadline)`.
abbrev pub later : Option ℕ → ℕ → ℕ
later none deadline = deadline
later (some existing) deadline = if ltb existing deadline then deadline else existing

-- `HashMap::retain`.
unfoldable pub retain : (ℕ → Bool) → List (Text × ℕ) → List (Text × ℕ)
retain p [] = []
retain p ((host, deadline) ∷ m) =
    let rest = retain p m in if p deadline then (host, deadline) ∷ rest else rest

module _ {G : Type 0} where
  unfoldable pub note_retry_after : Text → ℕ → ℕ → HostLimiter G → HostLimiter G
  note_retry_after host d now l =
      let key = to_lowercase host in
      let deadline = now + min d cooldown_cap in
      record l { cooldowns = insert key (later (lookup key l.cooldowns) deadline) l.cooldowns }

  unfoldable pub cooldown_wait : Text → ℕ → HostLimiter G → ℕ
  cooldown_wait host now l = elim (lookup host l.cooldowns) [
    | none ↦ 0
    | some deadline ↦ deadline - now
  ]

module _ {G : Type 0} (until_key_ready : Text → ℕ → G → ℕ × G) (retain_recent : ℕ → G → G)
    (parse_ip : Text → Option IpAddr) (show_ip : IpAddr → Text) where
  unfoldable pub should_pace : Option Text → Bool
  should_pace host = elim (ip_literal_host parse_ip show_ip host) [
    | some ip ↦ not (is_blocked_destination ip)
    | none ↦ true
  ]

  unfoldable pub prune : ℕ → HostLimiter G → HostLimiter G
  prune now l = record l {
    cooldowns = retain (λ deadline. ltb now deadline) l.cooldowns;
    bucket = retain_recent now l.bucket;
  }

  -- The end of an acquisition: the count, and the housekeeping at each hundredth.
  unfoldable pub count_acquire : ℕ → HostLimiter G → HostLimiter G
  count_acquire now l =
      let n = suc l.acquire_count % 2 ^ 64 in
      let counted = record l { acquire_count = n } in
      if n % prune_every_n_acquires == 0 then prune now counted else counted

  -- The token of a host, taken from the bucket at a time: when it is there, and the limiter then.
  unfoldable pub take_token : Text → ℕ → HostLimiter G → ℕ × HostLimiter G
  take_token host now l =
      let (at, bucket) = until_key_ready host now l.bucket in (at, record l { bucket = bucket })

  unfoldable pub acquire_host : Text → ℕ → HostLimiter G → ℕ × HostLimiter G
  acquire_host host now l =
      let (at, l') = take_token host (now + cooldown_wait host now l) l in (at, count_acquire at l')

  -- The whole call, with nothing in between: the time at which it returns, and the limiter then.
  unfoldable pub acquire : Option Text → ℕ → HostLimiter G → ℕ × HostLimiter G
  acquire none now l = (now, l)
  acquire (some host) now l =
      if should_pace (some host) then acquire_host (to_lowercase host) now l else (now, l)
