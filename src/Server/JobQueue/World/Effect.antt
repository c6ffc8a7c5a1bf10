-- ===== src/Server/JobQueue/World/Effect.antt =====
-- What a whole submission does to the queue and answers, described apart from the sections of `submit`.
use localdb.Prelude.{
  ℕ, ◌≡◌, refl, ap, Bool, true, false, ◌||◌, Option, none, some, [], ◌∷◌, ◌++◌, Text, codes,
  text_eq, ◌==◌, lookup, lookup-insert, contains, if◌then◌else◌, unwrap_or,
}
use localdb.Core.Errors.{index_in_progress}
use localdb.Core.Jobs.{IndexJob, IndexJobScope, IndexJobState, create_index_job}
use localdb.Server.JobQueue.State.{JobQueue, JobHandle, terminal, QueuedJob, Clock}
use localdb.Server.JobQueue.Evict.Writes.{Kept}
use localdb.Server.JobQueue.Submit.{
  reserve, install_handle, publish, Submission, rejected, accepted, answer, hand_over, admit,
  submit,
}

module _ (store_id : Text) (scope : IndexJobScope) (i : Text) (clock : Clock) where
  -- The job as it was asked for, in a state with its error and its end.
  abbrev pub Asked : IndexJobState → Option Text → Option Text → IndexJob → Type 0
  Asked state error completed_at job =
      (job.id ≡ i)
      × (job.store_id ≡ store_id)
      × (job.scope ≡ scope)
      × (job.created_at ≡ clock.now)
      × (job.started_at ≡ none)
      × (job.state ≡ state)
      × (job.error ≡ error)
      × (job.error_code ≡ none)
      × (job.completed_at ≡ completed_at)

  -- The handle and the queued job, with the new address for the channel and the token.
  abbrev pub fresh_handle : JobQueue → JobHandle
  fresh_handle q = record { events = q.next_address; cancel_token = q.next_address }

  abbrev pub fresh_job : JobQueue → QueuedJob
  fresh_job q = record {
    id = i;
    store_id = store_id;
    sink = q.next_address;
    cancel_token = q.next_address;
  }

  -- The job waits for a worker.
  abbrev pub Handed : IndexJob → JobQueue → JobQueue → Type 0
  Handed job q q' =
      Asked IndexJobState.pending none none job
      × ((j : Text)
          → lookup j q'.registry ≡ (if text_eq i j then some job else lookup j q.registry))
      × ((j : Text)
          → lookup j q'.handles
            ≡ (if text_eq i j then some (fresh_handle q) else lookup j q.handles))
      × ((s : Text) → contains s q'.inflight ≡ (text_eq store_id s || contains s q.inflight))
      × ((a : ℕ) → q'.tokens a ≡ (if q.next_address == a then false else q.tokens a))
      × ((a : ℕ) → q'.sent a ≡ (if q.next_address == a then [] else q.sent a))
      × (q'.channel ≡ q.channel ++ fresh_job q ∷ [])

  -- The receiver is gone: the job has failed, and nothing of it is left but its entry.
  abbrev pub Returned : IndexJob → JobQueue → JobQueue → Type 0
  Returned job q q' =
      Asked IndexJobState.failed (some (codes "job queue is full or closed")) (some clock.now) job
      × (lookup i q'.registry ≡ some job)
      × ((j : Text) → text_eq i j ≡ false → Kept (lookup j q.registry) (lookup j q'.registry))
      × ((j : Text) → lookup j q'.handles ≡ (if text_eq i j then none else lookup j q.handles))
      × ((s : Text) → contains s q'.inflight ≡ contains s q.inflight)
      × ((a : ℕ) → q'.tokens a ≡ (if q.next_address == a then false else q.tokens a))
      × ((a : ℕ) → q'.sent a ≡ (if q.next_address == a then terminal job ∷ [] else q.sent a))
      × (q'.channel ≡ q.channel)

  -- What the call answers and leaves, by whether the store is in flight and the receiver is gone.
  abbrev pub Effect : Bool → Bool → JobQueue → Submission → JobQueue → Type 0
  Effect true gone q call q' = (call ≡ rejected index_in_progress) × (q' ≡ q)
  Effect false false q call q' = (job : IndexJob) × (call ≡ accepted job q') × Handed job q q'
  Effect false true q call q' = (job : IndexJob) × (call ≡ accepted job q') × Returned job q q'

  abbrev pub asked : IndexJob
  asked = create_index_job i store_id scope clock.now

  -- The state before the send.
  unfoldable pub before_send : JobQueue → JobQueue
  unfolding publish install_handle
  before_send q = publish asked (install_handle i (record q { inflight = store_id ∷ q.inflight })).0

  pub submit-taken :
      (q : JobQueue)
      → contains store_id q.inflight ≡ true
      → submit store_id scope i clock q ≡ rejected index_in_progress
  unfolding submit reserve
  submit-taken q taken = rw (taken, submit, reserve) refl

  pub submit-free :
      (q : JobQueue)
      → contains store_id q.inflight ≡ false
      → submit store_id scope i clock q ≡ hand_over asked (fresh_job q) clock (before_send q)
  unfolding submit reserve admit install_handle create_index_job before_send
  submit-free q free = rw (free, submit, reserve) refl

  pub asked-answer :
      (r : JobQueue) (job : IndexJob)
      → lookup i r.registry ≡ some job
      → answer asked r ≡ accepted job r
  unfolding create_index_job
  asked-answer r job e = ap (λ o. accepted (unwrap_or o asked) r) e

  pub before_send-lookup :
      (q : JobQueue) (j : Text)
      → lookup j (before_send q).registry
        ≡ (if text_eq i j then some asked else lookup j q.registry)
  unfolding before_send publish install_handle create_index_job
  before_send-lookup q j = lookup-insert i j asked q.registry
