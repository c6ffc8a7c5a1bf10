-- ===== src/Server/JobQueue/Worker.antt =====
-- `run_worker` and `process_job`: the critical sections of one job's run, and the whole of it.
use localdb.Prelude.{
  ◌++◌, Bool, true, false, Option, none, some, [], ◌∷◌, Text, codes, if◌then◌else◌,
}
use localdb.Core.Errors.{Error, job_cancelled, internal, Result, ok, err}
use localdb.Core.Jobs.{
  IndexJob, IndexJobStats, start_index_job, complete_index_job, fail_index_job,
  fail_index_job_with_error,
}
use localdb.Server.JobQueue.State.{JobQueue, QueuedJob, Clock, teardown}
use localdb.Server.JobQueue.Evict.{update_entry, write_terminal}
use localdb.Server.JobQueue.Submit.{release}

-- tokio's `JoinError`: whether the task was aborted, and its message.
pub record JoinError : Type 0 where
  pub is_cancelled : Bool
  pub message : Text

abbrev pub Joined : Type 0
Joined = Result JoinError (Result Error IndexJobStats)

pub data JobOutcome : Type 0 where
  finished : Joined → JobOutcome
  cancelled : JobOutcome
  task_build_panicked : Text → JobOutcome

-- What the environment does with a started job: building the task panics; or the task's handle
-- wins the `select!`; or the token does, and the handle is awaited again after `abort()`.
pub data Race : Type 0 where
  build_panics : Text → Race
  handle_wins : Joined → Race
  token_wins : Joined → Race

unfoldable pub resolve_aborted : Joined → JobOutcome
resolve_aborted (ok result) = finished (ok result)
resolve_aborted (err join_err) =
    if join_err.is_cancelled then cancelled else finished (err join_err)

unfoldable pub outcome_of : Race → JobOutcome
outcome_of (build_panics message) = task_build_panicked message
outcome_of (handle_wins joined) = finished joined
outcome_of (token_wins joined) = resolve_aborted joined

unfoldable pub apply_job_outcome : IndexJob → JobOutcome → Text → IndexJob
apply_job_outcome job (finished (ok (ok stats))) now = complete_index_job job stats now
apply_job_outcome job (finished (ok (err e))) now = fail_index_job_with_error job e now
apply_job_outcome job (finished (err join_err)) now =
    fail_index_job job (codes "task panicked: " ++ join_err.message) now
apply_job_outcome job cancelled now = fail_index_job_with_error job job_cancelled now
apply_job_outcome job (task_build_panicked message) now =
    fail_index_job_with_error job
      (internal (codes "worker panicked during job processing: " ++ message)
        (codes "job_worker_task_build_panic"))
      now

-- `rx.recv()` on a channel that holds a job.
unfoldable pub receive : JobQueue → Option (QueuedJob × JobQueue)
receive q = elim q.channel [
  | [] ↦ none
  | queued ∷ rest ↦ some (queued, record q { channel = rest })
]

-- The scope that decides: the job was cancelled while pending, or it starts now. The flag says
-- which, and the snapshot is there in the first case alone.
unfoldable pub begin_job : QueuedJob → Clock → JobQueue → JobQueue × Bool × Option IndexJob
begin_job queued clock q =
    if q.tokens queued.cancel_token
    then (let (q', snapshot) =
          write_terminal (λ job. fail_index_job_with_error job job_cancelled clock.now) queued.id
            clock.cutoff q in
        (q', true, snapshot))
    else (
      record q {
        registry = update_entry (λ job. start_index_job job clock.now) queued.id q.registry;
      },
      false,
      none,
    )

unfoldable pub record_outcome :
    QueuedJob → JobOutcome → Clock → JobQueue → JobQueue × Option IndexJob
record_outcome queued outcome clock q =
    write_terminal (λ job. apply_job_outcome job outcome clock.now) queued.id clock.cutoff q

-- The teardown and the release that end every run.
unfoldable pub conclude : QueuedJob → Option IndexJob → JobQueue → JobQueue
conclude queued snapshot q = release queued.store_id (teardown queued.id snapshot q)

-- The whole of `process_job` with nothing between its locks. The task reports no progress here.
unfoldable pub process_job : QueuedJob → Race → Clock → Clock → JobQueue → JobQueue
process_job queued race started ended q =
    let (q', already_cancelled, snapshot) = begin_job queued started q in
    if already_cancelled
    then conclude queued snapshot q'
    else (let (q'', result) = record_outcome queued (outcome_of race) ended q' in
        conclude queued result q'')
