-- ===== src/Server/JobQueue/Cancel.antt =====
-- `JobQueue::cancel`, `JobQueue::get_job` and `JobQueue::list_jobs`: each is one critical section.
use localdb.Prelude.{
  ◌++◌, Bool, false, not, ◌&&◌, Option, none, some, List, [], Text, text_eq, codes, lookup, values,
  if◌then◌else◌,
}
use localdb.Core.Errors.{Error, job_not_found, job_already_terminal, internal, Result, ok, err}
use localdb.Core.Jobs.{IndexJob, is_failed}
use localdb.Server.JobQueue.State.{JobQueue, JobHandle, trigger, max_terminal_jobs}
use localdb.Server.JobQueue.Evict.{terminal_job, evict_oldest_terminal_jobs_over_cap}

abbrev pub has_code : Text → Option Text → Bool
has_code c none = false
has_code c (some d) = text_eq d c

unfoldable pub resolve_post_trigger_outcome : IndexJob → Result Error IndexJob
resolve_post_trigger_outcome job =
    let is_this_cancellation =
      is_failed job.state && has_code (codes "job_cancelled") job.error_code in
    if terminal_job job && not is_this_cancellation then err job_already_terminal else ok job

abbrev pub missing_handle : Text → Error
missing_handle id =
    internal
      (codes "job "
        ++ (id
            ++ codes
                " has no cancellation handle despite being non-terminal in the registry (internal invariant violation)"))
      (codes "job_cancel_missing_handle")

-- The handle's token is triggered, and the registry is read again.
unfoldable pub trigger_handle :
    Text → Option JobHandle → JobQueue → JobQueue × Result Error IndexJob
trigger_handle id none q = (q, err (missing_handle id))
trigger_handle id (some h) q = (
  record q { tokens = trigger h.cancel_token q.tokens },
  elim (lookup id q.registry) [
    | none ↦ err (job_not_found id)
    | some job ↦ resolve_post_trigger_outcome job
  ],
)

unfoldable pub cancel : Text → JobQueue → JobQueue × Result Error IndexJob
cancel id q = elim (lookup id q.registry) [
  | none ↦ (q, err (job_not_found id))
  | some job ↦
      if terminal_job job
      then (q, err job_already_terminal)
      else trigger_handle id (lookup id q.handles) q
]

pub get_job : Text → JobQueue → Option IndexJob
get_job id q = lookup id q.registry

unfoldable pub list_jobs : Text → JobQueue → JobQueue × List IndexJob
list_jobs cutoff q =
    let registry = evict_oldest_terminal_jobs_over_cap q.registry max_terminal_jobs [] cutoff in
    (record q { registry = registry }, values registry)
