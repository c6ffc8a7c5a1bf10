-- ===== src/Server/JobQueue/World/Ended.antt =====
-- What the whole run of one job does to the queue, described apart from the sections of `process_job`.
use mathlib.Core.Path.{subst}
use localdb.Prelude.{
  ℕ, ◌≡◌, refl, sym, ◌∙◌, ap, inl, inr, true, false, Option, none, some, List, [], ◌∷◌, ◌++◌, Text,
  text_eq, text_eq_refl, ◌==◌, lookup, lookup-remove, contains, contains-delete, if◌then◌else◌,
  Bool-cases, Option-cases, arith,
}
use localdb.Core.Errors.{job_cancelled}
use localdb.Core.Jobs.{IndexJob, start_index_job, fail_index_job_with_error}
use localdb.Server.JobQueue.State.{
  JobQueue, JobHandle, JobEvent, terminal, QueuedJob, Clock, teardown, max_terminal_jobs,
}
use localdb.Server.JobQueue.Evict.{
  update_entry, write_terminal, evict_oldest_terminal_jobs_over_cap,
}
use localdb.Server.JobQueue.Evict.Survivors.{WellKeyed}
use localdb.Server.JobQueue.Evict.Writes.{
  Kept, changed, update_entry-WellKeyed, lookup-update_entry, lookup-written_other,
  lookup-written_self,
}
use localdb.Server.JobQueue.Submit.{release}
use localdb.Server.JobQueue.Worker.{
  Race, outcome_of, apply_job_outcome, begin_job, record_outcome, conclude, process_job,
}
use localdb.Server.JobQueue.World.{World, over, is_ready, receives, begins, run}
use localdb.Server.JobQueue.World.Whole.{rest, run-process_job}
use localdb.Server.JobQueue.World.Working.{apply_job_outcome-terminal}
use localdb.Server.JobQueue.World.Verdict.{Settled, cancelled-Settled, applied, applied-Settled}

abbrev told : Option JobHandle → IndexJob → (ℕ → List JobEvent) → ℕ → List JobEvent
told none end sent a = sent a
told (some h) end sent a = if h.events == a then sent a ++ terminal end ∷ [] else sent a

-- What stands in the queue after a run of `x` that ends with the entry `end`, seen from the queue
-- from which the worker took it.
abbrev pub Ran : QueuedJob → IndexJob → JobQueue → JobQueue → Type 0
Ran x end q q' =
    (lookup x.id q'.registry ≡ some end)
    × ((j : Text) → text_eq x.id j ≡ false → Kept (lookup j q.registry) (lookup j q'.registry))
    × ((j : Text) → lookup j q'.handles ≡ (if text_eq x.id j then none else lookup j q.handles))
    × ((s : Text)
        → contains s q'.inflight ≡ (if text_eq x.store_id s then false else contains s q.inflight))
    × ((a : ℕ) → q'.sent a ≡ told (lookup x.id q.handles) end q.sent a)
    × ((a : ℕ) → q'.tokens a ≡ q.tokens a)
    × (q'.channel ≡ q.channel)

module _ (x : QueuedJob) (end : IndexJob) (q : JobQueue) (r : List (Text × IndexJob)) where
  conclude-Ran :
      lookup x.id r ≡ some end
      → ((j : Text) → text_eq x.id j ≡ false → Kept (lookup j q.registry) (lookup j r))
      → Ran x end q (conclude x (some end) (record q { registry = r }))
  unfolding conclude release teardown
  conclude-Ran mine others = elim (Option-cases (lookup x.id q.handles)) [
    | inl gone ↦
        rw (gone, conclude, teardown)
          (
            mine,
            others,
            λ j. lookup-remove x.id j q.handles,
            λ s. contains-delete x.store_id s q.inflight,
            λ a. refl,
            λ a. refl,
            refl,
          )
    | inr (h, there) ↦
        rw (there, conclude, teardown)
          (
            mine,
            others,
            λ j. lookup-remove x.id j q.handles,
            λ s. contains-delete x.store_id s q.inflight,
            λ a. refl,
            λ a. refl,
            refl,
          )
  ]

module _ (x : QueuedJob) (q : JobQueue) where
  -- The terminal write of a run, from a registry that differs at the job's own entry at most.
  write_terminal-Ran :
      (change : IndexJob → IndexJob) (cutoff : Text) (r : List (Text × IndexJob)) (job : IndexJob)
      → ((k : IndexJob) → (change k).id ≡ k.id)
      → WellKeyed r
      → lookup x.id r ≡ some job
      → ((j : Text) → text_eq x.id j ≡ false → lookup j r ≡ lookup j q.registry)
      → let (q', snapshot) = write_terminal change x.id cutoff (record q { registry = r }) in
        Ran x (change job) q (conclude x snapshot q')
  unfolding write_terminal
  write_terminal-Ran change cutoff r job same keyed known others =
      let after =
        evict_oldest_terminal_jobs_over_cap (update_entry change x.id r) max_terminal_jobs x.id
          cutoff in
      let mine : lookup x.id after ≡ some (change job) =
        lookup-written_self change x.id r cutoff same keyed ∙ ap (changed change) known in
      subst (λ snapshot. Ran x (change job) q (conclude x snapshot (record q { registry = after })))
        (sym mine)
        (conclude-Ran x (change job) q after mine (λ j other.
          subst (λ entry. Kept entry (lookup j after)) (others j other)
            (lookup-written_other change x.id r cutoff same keyed j other)))

  module _ (race : Race) (begun clock : Clock) where
    process_job-cancelled :
        q.tokens x.cancel_token ≡ true
        → process_job x race begun clock q ≡ (
            let (q', snapshot) =
              write_terminal
                (λ job. fail_index_job_with_error job job_cancelled begun.now)
                x.id
                begun.cutoff
                q in
            conclude x snapshot q')
    unfolding process_job begin_job
    process_job-cancelled triggered = rw (triggered, process_job, begin_job) refl

    abbrev started_registry : List (Text × IndexJob)
    started_registry = update_entry (λ job. start_index_job job begun.now) x.id q.registry

    process_job-started :
        q.tokens x.cancel_token ≡ false
        → process_job x race begun clock q ≡ (
            let (q', snapshot) =
              write_terminal
                (λ job. apply_job_outcome job (outcome_of race) clock.now)
                x.id
                clock.cutoff
                (record q { registry = started_registry }) in
            conclude x snapshot q')
    unfolding process_job begin_job record_outcome
    process_job-started untouched = rw (untouched, process_job, begin_job) refl

    started-lookup :
        (job : IndexJob)
        → lookup x.id q.registry ≡ some job
        → lookup x.id started_registry ≡ some (start_index_job job begun.now)
    started-lookup job known = ground (
      arith,
      known,
      text_eq_refl x.id,
      lookup-update_entry (λ job. start_index_job job begun.now) x.id q.registry x.id,
    )

    started-others :
        (j : Text) → text_eq x.id j ≡ false → lookup j started_registry ≡ lookup j q.registry
    started-others j other =
        ground (
          arith,
          other,
          lookup-update_entry (λ job. start_index_job job begun.now) x.id q.registry j,
        )

    -- What the run makes of the entry `job`.
    abbrev pub Ends : IndexJob → JobQueue → Type 0
    Ends job q' =
        (end : IndexJob) × (Settled race begun clock (q.tokens x.cancel_token) job end
          × Ran x end q q')

cancelled-id :
    (now : Text) (k : IndexJob) → (fail_index_job_with_error k job_cancelled now).id ≡ k.id
unfolding fail_index_job_with_error
cancelled-id now k = refl

started-id : (now : Text) (k : IndexJob) → (start_index_job k now).id ≡ k.id
unfolding start_index_job
started-id now k = refl

module _ (x : QueuedJob) (race : Race) (begun clock : Clock) (q : JobQueue) (job : IndexJob)
    (keyed : WellKeyed q.registry) (known : lookup x.id q.registry ≡ some job) where
  cancelled-Ends :
      q.tokens x.cancel_token ≡ true
      → Ends x q race begun clock job (process_job x race begun clock q)
  cancelled-Ends triggered =
      rw (triggered, process_job-cancelled x q race begun clock triggered)
        (
          fail_index_job_with_error job job_cancelled begun.now,
          (
            cancelled-Settled race begun clock job,
            write_terminal-Ran x q (λ k. fail_index_job_with_error k job_cancelled begun.now)
                begun.cutoff q.registry job (cancelled-id begun.now) keyed known (λ j other. refl),
          ),
        )

  started-Ends :
      q.tokens x.cancel_token ≡ false
      → Ends x q race begun clock job (process_job x race begun clock q)
  unfolding applied
  started-Ends untouched =
      rw (untouched, process_job-started x q race begun clock untouched)
        (
          applied race begun clock job,
          (
            applied-Settled race begun clock job,
            write_terminal-Ran x q (λ k. apply_job_outcome k (outcome_of race) clock.now)
                clock.cutoff (started_registry x q race begun clock) (start_index_job job begun.now)
                (λ k. (apply_job_outcome-terminal k (outcome_of race) clock.now).1)
                (update_entry-WellKeyed (λ k. start_index_job k begun.now) x.id q.registry
                  (started-id begun.now) keyed)
                (started-lookup x q race begun clock job known)
                (started-others x q race begun clock),
          ),
        )

  process_job-Ends : Ends x q race begun clock job (process_job x race begun clock q)
  process_job-Ends = elim (Bool-cases (q.tokens x.cancel_token)) [
    | inl triggered ↦ cancelled-Ends triggered
    | inr untouched ↦ started-Ends untouched
  ]

module _ (x : QueuedJob) (race : Race) (begun clock : Clock) where
  -- A worker takes the job `x` from the channel and runs with nobody in between, in the order of
  -- `process_job` and as `process_job` leaves the queue. The registry is keyed by job ids and has an
  -- entry of the job, and the race can happen: the token wins only if it was triggered. Then the job
  -- has no owner any more. Its entry keeps its id, store, scope and time of creation, has the state,
  -- error code and counts that the race gives, or is failed as cancelled if the token was triggered
  -- before the run, and has the times of its start and its end. An entry of another job is as it was,
  -- or it was terminal and is evicted. The job's handle alone is removed, its store alone is free
  -- again, one terminal event with the entry is sent on the channel of that handle alone, if there was
  -- one, and no token and none of the other queued jobs has changed.
  pub run-Ends :
      (w : World) (xs : List QueuedJob) (job : IndexJob)
      → w.queue.channel ≡ x ∷ xs
      → is_ready race (w.queue.tokens x.cancel_token) ≡ true
      → WellKeyed w.queue.registry
      → lookup x.id w.queue.registry ≡ some job
      → let end = run (receives ∷ begins x.id begun ∷ rest x race clock) w in
        let taken = record w.queue { channel = xs } in
        (end.phase x.id ≡ over)
        × (end.queue ≡ process_job x race begun clock taken)
        × Ends x taken race begun clock job end.queue
  run-Ends w xs job waits ready keyed known =
      let taken = record w.queue { channel = xs } in
      let (whole, ended) = run-process_job x race clock begun w xs waits ready in
      (
        ended,
        whole,
        subst (Ends x taken race begun clock job) (sym whole)
            (process_job-Ends x race begun clock taken job keyed known),
      )
