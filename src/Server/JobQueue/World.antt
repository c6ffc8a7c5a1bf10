-- ===== src/Server/JobQueue/World.antt =====
-- The interleavings of submitters, workers and clients. Each job id has at most one owner at a
-- time: the `submit` that created it, then the job channel, then a worker's `process_job`. Its
-- phase is where that owner stands between two critical sections, with the owner's local values.
pub mod Invariant
mod Frame
mod Guards
mod Step
mod Submitting
mod Working
pub mod Reached
pub mod Safety
mod Doomed
pub mod Cancelled
mod Final
mod FinalSubmit
mod FinalWork
pub mod Whole
pub mod Verdict
pub mod Ended
pub mod Submission
pub mod Effect
mod Refusal
pub mod Submitted
pub mod Outcomes
mod Tests
use localdb.Prelude.{
  Bool, true, false, Option, none, some, List, [], ◌∷◌, Text, text_eq, if◌then◌else◌,
}
use localdb.Core.Errors.{Error, Result, ok, err}
use localdb.Core.Jobs.{IndexJob, IndexJobScope, create_index_job}
use localdb.Core.Progress.{ProgressEvent}
use localdb.Server.JobQueue.State.{
  JobQueue, JobHandle, QueuedJob, Clock, new, report_progress, teardown,
}
use localdb.Server.JobQueue.Submit.{
  Sending, sent_to_workers, receiver_gone, waiting, reserve, install_handle, publish, enqueue,
  release, record_refusal, close_refusal,
}
use localdb.Server.JobQueue.Cancel.{cancel, list_jobs}
use localdb.Server.JobQueue.Worker.{
  Race, build_panics, handle_wins, token_wins, outcome_of, receive, begin_job, record_outcome,
}

pub data Phase : Type 0 where
  absent : Phase
  -- `submit`: the store is reserved; the handle is installed; the job is published.
  reserved : Text → Phase
  installed : IndexJob → QueuedJob → Phase
  published : QueuedJob → Phase
  -- `submit` after a failed send: the store is to be released, the refusal recorded, the handle
  -- torn down.
  refused : QueuedJob → Phase
  unguarded : QueuedJob → Phase
  refusal_recorded : QueuedJob → Option IndexJob → Phase
  -- The job channel, then `process_job`: received, started, ended, torn down.
  queued : QueuedJob → Phase
  received : QueuedJob → Phase
  started : QueuedJob → Phase
  ended : QueuedJob → Option IndexJob → Phase
  torn_down : QueuedJob → Phase
  over : Phase

pub record World : Type 0 where
  pub queue : JobQueue
  pub phase : Text → Phase

pub first_world : World
first_world = record { queue = new; phase = λ i. absent }

-- Which critical section runs next, and what the environment gives it.
pub data Action : Type 0 where
  reserves : Text → Text → Action
  installs : Text → IndexJobScope → Text → Action
  publishes sends withdraws : Text → Action
  records_refusal : Text → Clock → Action
  closes_refusal : Text → Action
  receives : Action
  begins : Text → Clock → Action
  reports : Text → ProgressEvent → Action
  ends : Text → Race → Clock → Action
  tears_down releases cancels : Text → Action
  lists : Text → Action
  stops : Action

abbrev pub move : Text → Phase → JobQueue → World → World
move i p q w = record { queue = q; phase = λ j. if text_eq i j then p else w.phase j }

-- A new id comes from `new_ulid`: it was never used.
pub reserves_at : Phase → Text → Text → World → World
reserves_at absent i store_id w = elim (reserve store_id w.queue) [
  | ok q ↦ move i (reserved store_id) q w
  | err e ↦ w
]
reserves_at _ i store_id w = w

abbrev pub queued_job : Text → Text → JobHandle → QueuedJob
queued_job i store_id h = record {
  id = i;
  store_id = store_id;
  sink = h.events;
  cancel_token = h.cancel_token;
}

pub installs_at : Phase → Text → IndexJobScope → Text → World → World
installs_at (reserved store_id) i scope now w =
    let (q, h) = install_handle i w.queue in
    move i (installed (create_index_job i store_id scope now) (queued_job i store_id h)) q w
installs_at _ i scope now w = w

pub publishes_at : Phase → Text → World → World
publishes_at (installed job x) i w = move i (published x) (publish job w.queue) w
publishes_at _ i w = w

pub sends_at : Phase → Text → World → World
sends_at (published x) i w = elim (enqueue x w.queue) [
  | sent_to_workers q ↦ move i (queued x) q w
  | receiver_gone ↦ move i (refused x) w.queue w
  | waiting ↦ w
]
sends_at _ i w = w

pub withdraws_at : Phase → Text → World → World
withdraws_at (refused x) i w = move i (unguarded x) (release x.store_id w.queue) w
withdraws_at _ i w = w

pub records_refusal_at : Phase → Text → Clock → World → World
records_refusal_at (unguarded x) i clock w =
    let (q, snapshot) = record_refusal i clock w.queue in move i (refusal_recorded x snapshot) q w
records_refusal_at _ i clock w = w

pub closes_refusal_at : Phase → Text → World → World
closes_refusal_at (refusal_recorded x snapshot) i w =
    move i over (close_refusal i x.sink snapshot w.queue) w
closes_refusal_at _ i w = w

pub receives_step : World → World
receives_step w = elim (receive w.queue) [ none ↦ w | some (x, q) ↦ move x.id (received x) q w ]

pub begins_at : Phase → Text → Clock → World → World
begins_at (received x) i clock w =
    let (q, already_cancelled, snapshot) = begin_job x clock w.queue in
    move i (if already_cancelled then ended x snapshot else started x) q w
begins_at _ i clock w = w

pub reports_at : Phase → ProgressEvent → World → World
reports_at (started x) e w = record w { queue = report_progress x.sink e w.queue }
reports_at _ e w = w

-- The token's branch of the `select!` is ready only once the token is triggered.
abbrev pub is_ready : Race → Bool → Bool
is_ready (token_wins joined) triggered = triggered
is_ready _ triggered = true

pub ends_at : Phase → Text → Race → Clock → World → World
ends_at (started x) i race clock w =
    if is_ready race (w.queue.tokens x.cancel_token)
    then (let (q, snapshot) = record_outcome x (outcome_of race) clock w.queue in
        move i (ended x snapshot) q w)
    else w
ends_at _ i race clock w = w

pub tears_down_at : Phase → Text → World → World
tears_down_at (ended x snapshot) i w = move i (torn_down x) (teardown i snapshot w.queue) w
tears_down_at _ i w = w

pub releases_at : Phase → Text → World → World
releases_at (torn_down x) i w = move i over (release x.store_id w.queue) w
releases_at _ i w = w

-- An action whose turn has not come changes nothing.
pub step : Action → World → World
step (reserves i store_id) w = reserves_at (w.phase i) i store_id w
step (installs i scope now) w = installs_at (w.phase i) i scope now w
step (publishes i) w = publishes_at (w.phase i) i w
step (sends i) w = sends_at (w.phase i) i w
step (withdraws i) w = withdraws_at (w.phase i) i w
step (records_refusal i clock) w = records_refusal_at (w.phase i) i clock w
step (closes_refusal i) w = closes_refusal_at (w.phase i) i w
step receives w = receives_step w
step (begins i clock) w = begins_at (w.phase i) i clock w
step (reports i e) w = reports_at (w.phase i) e w
step (ends i race clock) w = ends_at (w.phase i) i race clock w
step (tears_down i) w = tears_down_at (w.phase i) i w
step (releases i) w = releases_at (w.phase i) i w
step (cancels i) w = record w { queue = (cancel i w.queue).0 }
step (lists cutoff) w = record w { queue = (list_jobs cutoff w.queue).0 }
step stops w = record w { queue = record w.queue { closed = true } }

pub run : List Action → World → World
run [] w = w
run (a ∷ schedule) w = run schedule (step a w)
