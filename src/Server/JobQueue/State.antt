-- ===== src/Server/JobQueue/State.antt =====
-- The shared state of `JobQueue`: the maps behind its locks, the job channel, and what the
-- cancellation tokens and the broadcast channels hold. A token or a channel is shared by its
-- clones, so it is an address into the state.
use localdb.Prelude.{
  ℕ, Bool, true, false, Option, none, some, List, [], ◌∷◌, ◌++◌, Text, ◌==◌, lookup, remove,
  if◌then◌else◌,
}
use localdb.Core.Jobs.{IndexJob}
use localdb.Core.Progress.{ProgressEvent}

abbrev pub queue_capacity : ℕ
queue_capacity = 64

abbrev pub max_terminal_jobs : ℕ
max_terminal_jobs = 200

pub data JobEvent : Type 0 where
  progress : ProgressEvent → JobEvent
  terminal : IndexJob → JobEvent

-- `events` is the address of the sender's channel, `cancel_token` that of the token.
pub record JobHandle : Type 0 where
  pub events : ℕ
  pub cancel_token : ℕ

-- The task itself is the environment's: only the sender that its progress sink holds is kept.
pub record QueuedJob : Type 0 where
  pub id : Text
  pub store_id : Text
  pub sink : ℕ
  pub cancel_token : ℕ

pub record JobQueue : Type 0 where
  pub registry : List (Text × IndexJob)
  pub inflight : List Text
  pub handles : List (Text × JobHandle)
  -- The bounded channel to the workers, oldest first, and whether its receiver is gone.
  pub channel : List QueuedJob
  pub closed : Bool
  -- Which tokens are triggered, and what was sent on each broadcast channel, oldest first.
  pub tokens : ℕ → Bool
  pub sent : ℕ → List JobEvent
  pub next_address : ℕ

unfoldable pub new : JobQueue
new = record {
  registry = [];
  inflight = [];
  handles = [];
  channel = [];
  closed = false;
  tokens = λ a. false;
  sent = λ a. [];
  next_address = 0;
}

-- What the wall clock gives a critical section: the time stamp, and the eviction cutoff.
pub record Clock : Type 0 where
  pub now : Text
  pub cutoff : Text

abbrev pub trigger : ℕ → (ℕ → Bool) → ℕ → Bool
trigger a tokens b = if a == b then true else tokens b

abbrev pub send_event : ℕ → JobEvent → (ℕ → List JobEvent) → ℕ → List JobEvent
send_event a e sent b = if a == b then sent b ++ e ∷ [] else sent b

-- The sink of a running task, `tx.send(JobEvent::Progress(event))`.
unfoldable pub report_progress : ℕ → ProgressEvent → JobQueue → JobQueue
report_progress a e q = record q { sent = send_event a (progress e) q.sent }

-- The scope that sends the terminal snapshot and removes the handle under one write lock.
unfoldable pub teardown : Text → Option IndexJob → JobQueue → JobQueue
teardown id none q = record q { handles = remove id q.handles }
teardown id (some job) q = elim (lookup id q.handles) [
  | none ↦ record q { handles = remove id q.handles }
  | some h ↦ record q {
    handles = remove id q.handles;
    sent = send_event h.events (terminal job) q.sent;
  }
]

-- The entry whose sender `JobQueue::subscribe` subscribes to.
pub subscribe : Text → JobQueue → Option JobHandle
subscribe id q = lookup id q.handles
