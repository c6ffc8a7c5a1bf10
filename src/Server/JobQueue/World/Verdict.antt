-- ===== src/Server/JobQueue/World/Verdict.antt =====
-- How a job ends, from what its task did: described apart from the code of `process_job`.
use localdb.Prelude.{
  ◌≡◌, refl, inl, inr, Bool, true, false, Option, none, some, Text, codes, if◌then◌else◌,
  Bool-cases,
}
use localdb.Core.Errors.{code, job_cancelled, ok, err}
use localdb.Core.Jobs.{
  IndexJob, IndexJobState, IndexJobStats, start_index_job, complete_index_job, fail_index_job,
  fail_index_job_with_error,
}
use localdb.Server.JobQueue.State.{Clock}
use localdb.Server.JobQueue.Worker.{
  Joined, Race, build_panics, handle_wins, token_wins, resolve_aborted, outcome_of,
  apply_job_outcome,
}

-- The state, the error code and the counts with which a job ends.
abbrev Verdict : Type 0
Verdict = IndexJobState × Option Text × IndexJobStats

abbrev pub as_ended : IndexJob → Verdict
as_ended job = (job.state, job.error_code, job.stats)

of_joined : Joined → IndexJob → Verdict
of_joined (ok (ok stats)) job = (IndexJobState.done, job.error_code, stats)
of_joined (ok (err e)) job = (IndexJobState.failed, some (code e), job.stats)
of_joined (err panicked) job = (IndexJobState.failed, none, job.stats)

-- A task that was aborted: it may have ended by itself before.
of_aborted : Joined → IndexJob → Verdict
unfolding of_joined
of_aborted (ok result) job = of_joined (ok result) job
of_aborted (err stopped) job = (
  IndexJobState.failed,
  if stopped.is_cancelled then some (codes "job_cancelled") else none,
  job.stats,
)

unfoldable pub verdict : Bool → Race → IndexJob → Verdict
unfolding of_joined of_aborted
verdict true race job = (IndexJobState.failed, some (codes "job_cancelled"), job.stats)
verdict false (build_panics message) job =
    (IndexJobState.failed, some (codes "internal"), job.stats)
verdict false (handle_wins joined) job = of_joined joined job
verdict false (token_wins joined) job = of_aborted joined job

module _ (race : Race) (begun clock : Clock) where
  -- How the entry `job` stands at the end, `skipped` since it was cancelled before its start or not.
  abbrev pub Settled : Bool → IndexJob → IndexJob → Type 0
  Settled skipped job end =
      (as_ended end ≡ verdict skipped race job)
      × (end.started_at ≡ (if skipped then job.started_at else some begun.now))
      × (end.completed_at ≡ some (if skipped then begun.now else clock.now))
      × (end.id ≡ job.id)
      × (end.store_id ≡ job.store_id)
      × (end.scope ≡ job.scope)
      × (end.created_at ≡ job.created_at)

  pub cancelled-Settled :
      (job : IndexJob) → Settled true job (fail_index_job_with_error job job_cancelled begun.now)
  unfolding verdict fail_index_job_with_error code
  cancelled-Settled job = (refl, refl, refl, refl, refl, refl, refl)

unfoldable pub applied : Race → Clock → Clock → IndexJob → IndexJob
applied race begun clock job =
    apply_job_outcome (start_index_job job begun.now) (outcome_of race) clock.now

pub applied-Settled :
    (race : Race) (begun clock : Clock) (job : IndexJob)
    → Settled race begun clock false job (applied race begun clock job)
unfolding applied verdict of_joined of_aborted apply_job_outcome outcome_of resolve_aborted
    start_index_job complete_index_job fail_index_job fail_index_job_with_error code
applied-Settled (build_panics message) begun clock job = (refl, refl, refl, refl, refl, refl, refl)
applied-Settled (handle_wins (ok (ok stats))) begun clock job =
    (refl, refl, refl, refl, refl, refl, refl)
applied-Settled (handle_wins (ok (err e))) begun clock job =
    (refl, refl, refl, refl, refl, refl, refl)
applied-Settled (handle_wins (err panicked)) begun clock job =
    (refl, refl, refl, refl, refl, refl, refl)
applied-Settled (token_wins (ok (ok stats))) begun clock job =
    (refl, refl, refl, refl, refl, refl, refl)
applied-Settled (token_wins (ok (err e))) begun clock job =
    (refl, refl, refl, refl, refl, refl, refl)
applied-Settled (token_wins (err stopped)) begun clock job =
    elim (Bool-cases stopped.is_cancelled) [
      | inl aborted ↦
          rw (aborted, resolve_aborted, apply_job_outcome)
            (refl, refl, refl, refl, refl, refl, refl)
      | inr failed_ ↦
          rw (failed_, resolve_aborted, apply_job_outcome)
            (refl, refl, refl, refl, refl, refl, refl)
    ]
