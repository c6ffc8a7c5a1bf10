-- ===== src/Server/JobQueue/World/FinalWork.antt =====
-- The sections of `process_job`, and those of the clients, leave a recorded outcome.
use mathlib.Core.Path.{subst}
use localdb.Prelude.{◌≡◌, refl, ◌⊎◌, inl, inr, List, [], ◌∷◌, Text, Bool-cases, arith}
use localdb.Core.Errors.{job_cancelled}
use localdb.Core.Jobs.{IndexJob, start_index_job, fail_index_job_with_error}
use localdb.Core.Progress.{ProgressEvent}
use localdb.Server.JobQueue.State.{QueuedJob, Clock, report_progress, max_terminal_jobs}
use localdb.Server.JobQueue.Evict.{update_entry}
use localdb.Server.JobQueue.Evict.Survivors.{lookup-evict}
use localdb.Server.JobQueue.Evict.Writes.{lookup-update_entry}
use localdb.Server.JobQueue.Submit.{release}
use localdb.Server.JobQueue.Cancel.{cancel, list_jobs}
use localdb.Server.JobQueue.Worker.{Race, outcome_of, apply_job_outcome, begin_job, record_outcome}
use localdb.Server.JobQueue.World.Invariant.{Inv, IsWaiting}
use localdb.Server.JobQueue.World.Step.{teardown-shape}
use localdb.Server.JobQueue.World.Working.{
  receive-eq, receive-eq_none, apply_job_outcome-terminal, cancel-shape,
}
use localdb.Server.JobQueue.World.{
  Phase, queued, received, started, ended, torn_down, over, World, is_ready, receives_step,
  begins_at, reports_at, ends_at, tears_down_at, releases_at,
}
use localdb.Server.JobQueue.World.Final.{Final, move-Final, here, write-Final, remove_handle-Final}

module _ (job : IndexJob) (w : World) (i : Text) (v : Inv w) (d : Final job w i) where
  pub receives_channel-Final :
      (xs : List QueuedJob) → w.queue.channel ≡ xs → Final job (receives_step w) i
  unfolding receives_step
  receives_channel-Final [] e = rw (receive-eq_none w.queue e, receives_step) d
  receives_channel-Final (x ∷ xs) e =
      rw (receive-eq x xs w.queue e, receives_step)
        (move-Final job w i v d x.id (received x) (record w.queue { channel = xs })
          (λ m.
            absurd (here job w i v d x.id (queued x) (subst (IsWaiting w.phase) e v.waiting).0 m))
          (λ o. inl refl))

  owned : (k : Text) (x : QueuedJob) → (w.phase k ≡ received x) ⊎ (w.phase k ≡ started x) → x.id ≡ k
  owned k x (inl e) = ground (arith, v.each k)
  owned k x (inr e) = ground (arith, v.each k)

  pub begins-Final :
      (p : Phase) (k : Text) (clock : Clock) → w.phase k ≡ p → Final job (begins_at p k clock w) i
  unfolding begins_at begin_job start_index_job fail_index_job_with_error
  begins-Final (received x) k clock e = elim (Bool-cases (w.queue.tokens x.cancel_token)) [
    | inl triggered ↦
        rw (triggered, begins_at, begin_job)
          (write-Final job w i v d k x.id _
            (λ job. fail_index_job_with_error job job_cancelled clock.now) clock.cutoff
            (owned k x (inl e)) (λ a. refl) (here job w i v d k (received x) e))
    | inr untouched ↦
        rw (untouched, begins_at, begin_job)
          (move-Final job w i v d k (started x)
            (record w.queue {
              registry = update_entry (λ job. start_index_job job clock.now) x.id w.queue.registry;
            })
            (λ m. absurd (here job w i v d k (received x) e m))
            (λ o. ground (
              arith,
              owned k x (inl e),
              lookup-update_entry (λ job. start_index_job job clock.now) x.id w.queue.registry i,
            )))
  ]
  begins-Final _ k clock e = d

  pub reports-Final : (p : Phase) (event : ProgressEvent) → Final job (reports_at p event w) i
  unfolding reports_at report_progress
  reports-Final (started x) event = d
  reports-Final _ event = d

  pub ends-Final :
      (p : Phase) (k : Text) (race : Race) (clock : Clock)
      → w.phase k ≡ p
      → Final job (ends_at p k race clock w) i
  unfolding ends_at record_outcome
  ends-Final (started x) k race clock e =
      elim (Bool-cases (is_ready race (w.queue.tokens x.cancel_token))) [
        | inl ready ↦
            rw (ready, ends_at)
              (write-Final job w i v d k x.id _
                (λ job. apply_job_outcome job (outcome_of race) clock.now) clock.cutoff
                (owned k x (inr e))
                (λ a. (apply_job_outcome-terminal a (outcome_of race) clock.now).1)
                (here job w i v d k (started x) e))
        | inr early ↦ rw (early, ends_at) d
      ]
  ends-Final _ k race clock e = d

  pub tears_down-Final : (p : Phase) (k : Text) → w.phase k ≡ p → Final job (tears_down_at p k w) i
  unfolding tears_down_at
  tears_down-Final (ended x snapshot) k e =
      remove_handle-Final job w i v d k (torn_down x) _ (teardown-shape k snapshot w.queue) tt
  tears_down-Final _ k e = d

  pub releases-Final : (p : Phase) (k : Text) → w.phase k ≡ p → Final job (releases_at p k w) i
  unfolding releases_at release
  releases-Final (torn_down x) k e =
      move-Final job w i v d k over (release x.store_id w.queue) (λ m. (tt, refl)) (λ o. inl refl)
  releases-Final _ k e = d

  pub cancels-Final : (k : Text) → Final job (record w { queue = (cancel k w.queue).0 }) i
  cancels-Final k = let (t, shape) = cancel-shape k w.queue in rw shape d

  pub lists-Final :
      (cutoff : Text) → Final job (record w { queue = (list_jobs cutoff w.queue).0 }) i
  unfolding list_jobs
  lists-Final cutoff = (
    d.0,
    ground (arith, d.1, lookup-evict i w.queue.registry max_terminal_jobs [] cutoff v.keyed),
  )
