-- ===== src/Core/Ingestion/Recheck/Floor.antt =====
-- Bounds of the recheck floor.
use localdb.Prelude.{ℕ, ◌+◌, ◌*◌, ◌≤◌, ◌≡◌, Option, some, arith}
use localdb.Core.Ingestion.Recheck.{
  recheck_floor_secs, recheck_window, recheck_floor_start, i64_max,
}

-- Whatever interval a source is configured with, the floor starts at least 24 hours before now, or
-- at the first instant there is; and a longer interval, unless it does not fit the duration, is
-- waited for in full.
pub recheck_floor_start-le :
    (now : ℕ) (interval : Option ℕ)
    → (recheck_floor_start now interval ≤ now)
      × ((86_400_000 ≤ now → recheck_floor_start now interval + 86_400_000 ≤ now)
          × ((secs : ℕ)
              → interval ≡ some secs
              → secs * 1000 ≤ i64_max
              → secs * 1000 ≤ now
              → recheck_floor_start now interval + secs * 1000 ≤ now))
unfolding recheck_floor_start recheck_floor_secs recheck_window
recheck_floor_start-le now interval = ground arith
