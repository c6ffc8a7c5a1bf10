-- ===== src/Server/Scheduler.antt =====
-- server/src/scheduler.rs: the refresh of `url` sources. One loop runs the ticks, one after the
-- other; the watchers of the submitted jobs, and the registrations, run between the critical
-- sections of a tick. An `Instant` is a whole number of nanoseconds. The job queue is the
-- environment's: a submission is its answer, and a watcher wakes at some time after the job ended.
pub mod Due
pub mod Exclusion
pub mod Spacing
mod Tests
use localdb.Prelude.{
  ℕ, ◌-◌, ◌*◌, Bool, true, false, Option, none, some, List, [], ◌∷◌, Text, text_eq, leb, lookup,
  insert, remove, values, keep, contains, if◌then◌else◌,
}
use localdb.Core.Errors.{Error, Result, ok, err}

pub record UrlRefreshRecord : Type 0 where
  pub source_id : Text
  pub store_name : Text
  pub url : Text
  pub interval : Option ℕ
  pub last_refreshed : Option ℕ
  pub refresh_inflight : Bool

abbrev pub elapsed : Option ℕ → Option ℕ → ℕ → Bool
elapsed none last now = false
elapsed (some interval) none now = true
elapsed (some interval) (some last) now = leb interval (now - last)

unfoldable pub is_due : ℕ → UrlRefreshRecord → Bool
is_due now r = if r.refresh_inflight then false else elapsed r.interval r.last_refreshed now

abbrev pub Records : Type 0
Records = List (Text × UrlRefreshRecord)

abbrev pub seconds : Option ℕ → Option ℕ
seconds none = none
seconds (some s) = some (s * 1000000000)

abbrev pub new_record : Text → Text → Text → Option ℕ → UrlRefreshRecord
new_record source_id store_name url interval_secs = record {
  source_id = source_id;
  store_name = store_name;
  url = url;
  interval = seconds interval_secs;
  last_refreshed = none;
  refresh_inflight = false;
}

unfoldable pub register : Text → Text → Text → Option ℕ → Records → Records
register source_id store_name url interval_secs records =
    insert source_id (new_record source_id store_name url interval_secs) records

unfoldable pub unregister : Text → Records → Records
unregister source_id records = remove source_id records

unfoldable pub due_records : ℕ → Records → List UrlRefreshRecord
due_records now records = keep (is_due now) (values records)

-- `records.get_mut(source_id)` and a change of the record, if it is there.
unfoldable pub update_record : (UrlRefreshRecord → UrlRefreshRecord) → Text → Records → Records
update_record change source_id records = elim (lookup source_id records) [
  | none ↦ records
  | some r ↦ insert source_id (change r) records
]

abbrev pub marked : UrlRefreshRecord → UrlRefreshRecord
marked r = record r { refresh_inflight = true }

abbrev pub stamped : ℕ → UrlRefreshRecord → UrlRefreshRecord
stamped now r = record r { last_refreshed = some now; refresh_inflight = false }

unfoldable pub mark_inflight : Text → Records → Records
mark_inflight source_id records = update_record marked source_id records

-- The write at the end of the watcher that `spawn_stamp_watcher` spawns.
unfoldable pub stamp : Text → ℕ → Records → Records
stamp source_id now records = update_record (stamped now) source_id records

-- The records, where the loop stands in its tick, and the sources of the watchers that wait.
pub record Scheduler : Type 0 where
  pub records : Records
  pub todo : List UrlRefreshRecord
  pub submitted : Option Text
  pub watchers : List Text

pub first_scheduler : Scheduler
first_scheduler = record { records = []; todo = []; submitted = none; watchers = [] }

pub data Action : Type 0 where
  registers : Text → Text → Text → Option ℕ → Action
  unregisters : Text → Action
  -- A tick begins; the queue answers its next submission; that source is marked and watched.
  ticks : ℕ → Action
  submits : Result Error Text → Action
  marks : Action
  stamps : Text → ℕ → Action

unfoldable pub remove_one : Text → List Text → List Text
remove_one i [] = []
remove_one i (j ∷ js) = if text_eq j i then js else j ∷ remove_one i js

pub ticks_at : List UrlRefreshRecord → Option Text → ℕ → Scheduler → Scheduler
ticks_at [] none now w = record w { todo = due_records now w.records }
ticks_at todo submitted now w = w

abbrev pub accepted : Result Error Text → Text → Option Text
accepted (ok job_id) source_id = some source_id
accepted (err e) source_id = none

pub submits_at : List UrlRefreshRecord → Option Text → Result Error Text → Scheduler → Scheduler
submits_at (r ∷ todo) none answer w = record w {
  todo = todo;
  submitted = accepted answer r.source_id;
}
submits_at todo submitted answer w = w

pub marks_at : Option Text → Scheduler → Scheduler
marks_at none w = w
marks_at (some source_id) w = record w {
  records = mark_inflight source_id w.records;
  submitted = none;
  watchers = source_id ∷ w.watchers;
}

pub stamps_at : Bool → Text → ℕ → Scheduler → Scheduler
stamps_at true source_id now w = record w {
  records = stamp source_id now w.records;
  watchers = remove_one source_id w.watchers;
}
stamps_at false source_id now w = w

-- An action whose turn has not come changes nothing.
pub step : Action → Scheduler → Scheduler
step (registers source_id store_name url interval_secs) w = record w {
  records = register source_id store_name url interval_secs w.records;
}
step (unregisters source_id) w = record w { records = unregister source_id w.records }
step (ticks now) w = ticks_at w.todo w.submitted now w
step (submits answer) w = submits_at w.todo w.submitted answer w
step marks w = marks_at w.submitted w
step (stamps source_id now) w = stamps_at (contains source_id w.watchers) source_id now w

pub run : List Action → Scheduler → Scheduler
run [] w = w
run (a ∷ schedule) w = run schedule (step a w)
