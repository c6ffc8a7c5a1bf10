-- ===== src/Fetch/Http/Limiter/Deadlines.antt =====
-- The wait for a cooldown over later requests and housekeeping.
use localdb.Prelude.{
  Unique, insert-Unique, ℕ, ◌+◌, ◌≤◌, ◌≡◌, refl, inl, inr, true, Option, some, List, [], ◌∷◌, Text,
  text_eq_iff, ltb, lookup, lookup-insert, min, arith, Option-cases,
}
use localdb.Fetch.Destination.{IpAddr}
use localdb.Fetch.Http.{from_secs}
use localdb.Fetch.Http.Limiter.{
  HostLimiter, to_lowercase, later, cooldown_cap, note_retry_after, cooldown_wait, should_pace,
  prune, count_acquire, take_token, acquire_host, acquire,
}
use localdb.Fetch.Http.Limiter.Cooldowns.{
  retain-Unique, lookup-retain, standing, Stands, later-cap, Stands-insert, insert-Stands,
  Stands-retain,
}

-- The critical sections of the limiter, each at its time.
pub data Section : Type 0 where
  notes : Text → ℕ → ℕ → Section
  takes counts : Text → ℕ → Section

abbrev pub time : Section → ℕ
time (notes host d at) = at
time (takes host at) = at
time (counts host at) = at

-- The times of a schedule never go back, from one time to another.
abbrev pub InOrder : ℕ → List Section → ℕ → Type 0
InOrder from [] until = from ≤ until
InOrder from (s ∷ schedule) until = (from ≤ time s) × InOrder (time s) schedule until

module _ {G : Type 0} (until_key_ready : Text → ℕ → G → ℕ × G) (retain_recent : ℕ → G → G)
    (parse_ip : Text → Option IpAddr) (show_ip : IpAddr → Text) where
  unfoldable pub perform : Section → HostLimiter G → HostLimiter G
  perform (notes host d at) l = note_retry_after host d at l
  perform (takes host at) l =
      (take_token until_key_ready retain_recent parse_ip show_ip host at l).1
  perform (counts host at) l = count_acquire until_key_ready retain_recent parse_ip show_ip at l

  unfoldable pub perform_all : List Section → HostLimiter G → HostLimiter G
  perform_all [] l = l
  perform_all (s ∷ schedule) l = perform_all schedule (perform s l)

  perform-Unique :
      (s : Section) (l : HostLimiter G) → Unique l.cooldowns → Unique (perform s l).cooldowns
  unfolding perform note_retry_after take_token count_acquire prune
  perform-Unique (notes host d at) l u = insert-Unique (to_lowercase host) _ l.cooldowns u
  perform-Unique (takes host at) l u = u
  perform-Unique (counts host at) l u = ground (arith, retain-Unique (λ e. ltb at e) l.cooldowns)

  perform-Stands :
      (key : Text) (deadline now : ℕ) (s : Section) (l : HostLimiter G)
      → Unique l.cooldowns
      → now ≤ time s
      → Stands key deadline now l.cooldowns
      → Stands key deadline (time s) (perform s l).cooldowns
  unfolding perform note_retry_after take_token count_acquire prune
  perform-Stands key deadline now (notes host d at) l u o h =
      Stands-insert key (to_lowercase host) deadline at _ l.cooldowns (omega arith)
  perform-Stands key deadline now (takes host at) l u o h = omega arith
  perform-Stands key deadline now (counts host at) l u o h =
      ground (arith, Stands-retain key key deadline at 0 l.cooldowns)

  perform_all-Stands :
      (key : Text) (deadline : ℕ) (schedule : List Section) (now until : ℕ) (l : HostLimiter G)
      → Unique l.cooldowns
      → InOrder now schedule until
      → Stands key deadline now l.cooldowns
      → Stands key deadline until (perform_all schedule l).cooldowns
  unfolding perform_all
  perform_all-Stands key deadline [] now until l u o h = omega arith
  perform_all-Stands key deadline (s ∷ schedule) now until l u (le, o) h =
      perform_all-Stands key deadline schedule (time s) until (perform s l) (perform-Unique s l u) o
        (perform-Stands key deadline now s l u le h)

  noted-Stands :
      (host : Text) (d now : ℕ) (l : HostLimiter G)
      → Stands
          (to_lowercase host)
          (now + min d cooldown_cap)
          now
          (note_retry_after host d now l).cooldowns
  unfolding note_retry_after
  noted-Stands host d now l =
      insert-Stands (to_lowercase host) (to_lowercase host) (now + min d cooldown_cap) now _
        l.cooldowns refl refl

  wait-Stands :
      (key : Text) (deadline now : ℕ) (l : HostLimiter G)
      → Stands key deadline now l.cooldowns
      → deadline ≤ now + cooldown_wait key now l
  unfolding cooldown_wait
  wait-Stands key deadline now l h = elim (Option-cases (lookup key l.cooldowns)) [
    | inl gone ↦ rw (gone, cooldown_wait) (ground arith)
    | inr (e, found) ↦ rw (found, cooldown_wait) (ground arith)
  ]

  acquire-le :
      (host : Text) (at deadline : ℕ) (l : HostLimiter G)
      → ((k : Text) (t : ℕ) (g : G) → t ≤ (until_key_ready k t g).0)
      → should_pace until_key_ready retain_recent parse_ip show_ip (some host) ≡ true
      → Stands (to_lowercase host) deadline at l.cooldowns
      → deadline ≤ (acquire until_key_ready retain_recent parse_ip show_ip (some host) at l).0
  unfolding acquire acquire_host take_token
  acquire-le host at deadline l forward paced h =
      rw (paced, acquire)
        (omega (
          arith,
          wait-Stands (to_lowercase host) deadline at l h,
          forward (to_lowercase host) (at + cooldown_wait (to_lowercase host) at l) l.bucket,
        ))

  -- After a `Retry-After` of `d` was noted for a host, whatever sections run in the meantime, an
  -- `acquire` of that host that is paced returns no earlier than `d`, or 60 s where `d` is more,
  -- after the note. This holds if the bucket never lets a request through before the time at which
  -- it is asked, and the map has one entry for each host.
  pub acquire-note_retry_after :
      (host : Text) (d noted at : ℕ) (schedule : List Section) (l : HostLimiter G)
      → ((k : Text) (t : ℕ) (g : G) → t ≤ (until_key_ready k t g).0)
      → Unique l.cooldowns
      → InOrder noted schedule at
      → should_pace until_key_ready retain_recent parse_ip show_ip (some host) ≡ true
      → noted + min d cooldown_cap
        ≤ (acquire until_key_ready retain_recent parse_ip show_ip
            (some host)
            at
            (perform_all schedule (note_retry_after host d noted l))).0
  unfolding perform
  acquire-note_retry_after host d noted at schedule l forward u o paced =
      acquire-le host at (noted + min d cooldown_cap) _ forward paced (
        perform_all-Stands (to_lowercase host) (noted + min d cooldown_cap) schedule noted at
          (note_retry_after host d noted l) (perform-Unique (notes host d noted) l u) o
          (noted-Stands host d noted l))

  -- No deadline of the map is more than 60 s away.
  abbrev pub Near : ℕ → HostLimiter G → Type 0
  Near now l = (key : Text) → standing (lookup key l.cooldowns) ≤ now + cooldown_cap

  perform-Near :
      (now : ℕ) (s : Section) (l : HostLimiter G)
      → Unique l.cooldowns
      → now ≤ time s
      → Near now l
      → Near (time s) (perform s l)
  unfolding perform note_retry_after take_token count_acquire prune
  perform-Near now (notes host d at) l u o near key = ground (
    arith,
    near key,
    text_eq_iff (to_lowercase host) key,
    later-cap (lookup (to_lowercase host) l.cooldowns) (at + min d cooldown_cap)
        (at + cooldown_cap),
    lookup-insert (to_lowercase host) key
        (later (lookup (to_lowercase host) l.cooldowns) (at + min d cooldown_cap)) l.cooldowns,
  )
  perform-Near now (takes host at) l u o near key = omega (arith, near key)
  perform-Near now (counts host at) l u o near key = elim (Option-cases (lookup key l.cooldowns)) [
    | inl gone ↦ ground (arith, near key, lookup-retain (λ e. ltb at e) key l.cooldowns u)
    | inr (e, found) ↦ ground (arith, near key, lookup-retain (λ e. ltb at e) key l.cooldowns u)
  ]

  perform_all-Near :
      (schedule : List Section) (now until : ℕ) (l : HostLimiter G)
      → Unique l.cooldowns
      → InOrder now schedule until
      → Near now l
      → Near until (perform_all schedule l)
  unfolding perform_all
  perform_all-Near [] now until l u o near = λ key. omega (arith, near key)
  perform_all-Near (s ∷ schedule) now until l u (le, o) near =
      perform_all-Near schedule (time s) until (perform s l) (perform-Unique s l u) o
        (perform-Near now s l u le near)

  -- Whatever was noted since the limiter was empty, the cooldown that a request meets is at most
  -- 60 s.
  pub cooldown_wait-perform_all :
      (schedule : List Section) (bucket : G) (count start now : ℕ) (key : Text)
      → InOrder start schedule now
      → cooldown_wait key now
          (perform_all schedule (record { bucket = bucket; cooldowns = []; acquire_count = count }))
        ≤ from_secs 60
  unfolding cooldown_wait lookup
  cooldown_wait-perform_all schedule bucket count start now key o =
      let l : HostLimiter G = record { bucket = bucket; cooldowns = []; acquire_count = count } in
      let near = perform_all-Near schedule start now l tt o (λ key. omega arith) key in
      elim (Option-cases (lookup key (perform_all schedule l).cooldowns)) [
        | inl gone ↦ rw (gone, cooldown_wait) (omega arith)
        | inr (e, found) ↦ rw (found, cooldown_wait) (ground arith)
      ]
