-- ===== src/Core/Ingestion/Recheck.antt =====
-- The floor below which nothing is checked again: core/src/ingestion/recheck.rs. An instant is the
-- number of milliseconds since `DateTime::<Utc>::MIN_UTC`, below which there is none.
pub mod Floor
use localdb.Prelude.{ℕ, ◌-◌, ◌*◌, ◌/◌, ◌^◌, max, Option, Text, unwrap_or, leb, if◌then◌else◌}

abbrev pub feed_liveness_min_recheck_secs : ℕ
feed_liveness_min_recheck_secs = 24 * 60 * 60

abbrev pub i64_max : ℕ
i64_max = 2 ^ 63 - 1

unfoldable pub recheck_floor_secs : Option ℕ → ℕ
recheck_floor_secs interval = max (unwrap_or interval 0) feed_liveness_min_recheck_secs

-- `i64::try_from`, then `Duration::try_seconds`, both at their maximum where they fail; a
-- `Duration` holds up to `i64::MAX` milliseconds.
unfoldable pub recheck_window : ℕ → ℕ
recheck_window floor_secs =
    let secs = if leb floor_secs i64_max then floor_secs else i64_max in
    if leb secs (i64_max / 1000) then secs * 1000 else i64_max

-- `checked_sub_signed`, at `MIN_UTC` where it fails.
unfoldable pub recheck_floor_start : ℕ → Option ℕ → ℕ
unfolding recheck_floor_secs recheck_window
recheck_floor_start now interval = now - recheck_window (recheck_floor_secs interval)

unfoldable pub recheck_floor_start_rfc3339 : (ℕ → Text) → ℕ → Option ℕ → Text
unfolding recheck_floor_start
recheck_floor_start_rfc3339 to_rfc3339 now interval = to_rfc3339 (recheck_floor_start now interval)
