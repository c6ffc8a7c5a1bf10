-- ===== src/Server/JobQueue/World/Whole.antt =====
-- The sections of one run, one after the other, are `process_job`.
use mathlib.Core.Path.{subst}
use localdb.Prelude.{
  ◌≡◌, refl, sym, inl, inr, Bool, true, false, Option, List, [], ◌∷◌, Text, if◌then◌else◌,
  Bool-cases,
}
use localdb.Core.Jobs.{IndexJob}
use localdb.Server.JobQueue.State.{JobQueue, QueuedJob, Clock, teardown}
use localdb.Server.JobQueue.Evict.{write_terminal}
use localdb.Server.JobQueue.Submit.{release}
use localdb.Server.JobQueue.Worker.{
  Race, outcome_of, begin_job, record_outcome, conclude, process_job,
}
use localdb.Server.JobQueue.World.Working.{receive-eq}
use localdb.Server.JobQueue.World.Frame.{at_move}
use localdb.Server.JobQueue.World.{
  received, started, ended, torn_down, over, World, move, Action, receives, begins, ends,
  tears_down, releases, is_ready, receives_step, begins_at, ends_at, tears_down_at, releases_at,
  step, run,
}

abbrev pub End : Text → World → JobQueue → Type 0
End i w q = (w.queue ≡ q) × (w.phase i ≡ over)

torn_down-End :
    (x : QueuedJob) (w : World)
    → w.phase x.id ≡ torn_down x
    → End x.id (run (releases x.id ∷ []) w) (release x.store_id w.queue)
unfolding run step releases_at
torn_down-End x w e =
    subst (λ p. End x.id (releases_at p x.id w) (release x.store_id w.queue)) (sym e)
      (refl, at_move x.id over (release x.store_id w.queue) w)

ended-End :
    (x : QueuedJob) (snapshot : Option IndexJob) (w : World)
    → w.phase x.id ≡ ended x snapshot
    → End x.id (run (tears_down x.id ∷ releases x.id ∷ []) w) (conclude x snapshot w.queue)
unfolding run step conclude tears_down_at
ended-End x snapshot w e =
    subst
      (λ p.
        End x.id (run (releases x.id ∷ []) (tears_down_at p x.id w)) (conclude x snapshot w.queue))
      (sym e)
      (torn_down-End x (move x.id (torn_down x) (teardown x.id snapshot w.queue) w)
        (at_move x.id (torn_down x) (teardown x.id snapshot w.queue) w))

module _ (x : QueuedJob) (race : Race) (clock : Clock) where
  abbrev pub rest : List Action
  rest = ends x.id race clock ∷ tears_down x.id ∷ releases x.id ∷ []

  started-End :
      (w : World)
      → w.phase x.id ≡ started x
      → is_ready race (w.queue.tokens x.cancel_token) ≡ true
      → let (q, snapshot) = record_outcome x (outcome_of race) clock w.queue in
        End x.id (run rest w) (conclude x snapshot q)
  unfolding run step ends_at
  started-End w e ready =
      let (q, snapshot) = record_outcome x (outcome_of race) clock w.queue in
      subst
        (λ p.
          End x.id (run (tears_down x.id ∷ releases x.id ∷ []) (ends_at p x.id race clock w))
            (conclude x snapshot q))
        (sym e)
        (rw (ready, ends_at)
          (ended-End x snapshot (move x.id (ended x snapshot) q w)
            (at_move x.id (ended x snapshot) q w)))

  -- A job that was already cancelled is ended when its turn to end comes.
  skipped-End :
      (snapshot : Option IndexJob) (w : World)
      → w.phase x.id ≡ ended x snapshot
      → End x.id (run rest w) (conclude x snapshot w.queue)
  unfolding run step ends_at
  skipped-End snapshot w e =
      subst
        (λ p.
          End x.id (run (tears_down x.id ∷ releases x.id ∷ []) (ends_at p x.id race clock w))
            (conclude x snapshot w.queue))
        (sym e) (ended-End x snapshot w e)

  begun-End :
      (b : Bool) (snapshot : Option IndexJob) (q : JobQueue) (w : World)
      → is_ready race (q.tokens x.cancel_token) ≡ true
      → let (q', result) = record_outcome x (outcome_of race) clock q in
        End x.id
          (run rest (move x.id (if b then ended x snapshot else started x) q w))
          (if b then conclude x snapshot q else conclude x result q')
  begun-End true snapshot q w ready =
      skipped-End snapshot (move x.id (ended x snapshot) q w) (at_move x.id (ended x snapshot) q w)
  begun-End false snapshot q w ready =
      started-End (move x.id (started x) q w) (at_move x.id (started x) q w) ready

  begin_job-tokens : (begun : Clock) (q : JobQueue) → (begin_job x begun q).0.tokens ≡ q.tokens
  unfolding begin_job write_terminal
  begin_job-tokens begun q = elim (Bool-cases (q.tokens x.cancel_token)) [
    | inl triggered ↦ rw (triggered, begin_job) refl
    | inr untouched ↦ rw (untouched, begin_job) refl
  ]

  received-End :
      (begun : Clock) (w : World)
      → w.phase x.id ≡ received x
      → is_ready race (w.queue.tokens x.cancel_token) ≡ true
      → End x.id (run (begins x.id begun ∷ rest) w) (process_job x race begun clock w.queue)
  unfolding run step begins_at process_job
  received-End begun w e ready =
      let (q, already_cancelled, snapshot) = begin_job x begun w.queue in
      subst
        (λ p.
          End x.id (run rest (begins_at p x.id begun w)) (process_job x race begun clock w.queue))
        (sym e)
        (begun-End already_cancelled snapshot q w (
          subst (λ t. is_ready race (t x.cancel_token) ≡ true)
            (sym (begin_job-tokens begun w.queue)) ready))

  -- A worker that takes the job `x` from the channel and runs with nobody in between leaves the
  -- queue as `process_job` does, and the job has no owner any more. The race is one that can
  -- happen: the token wins only if it was triggered before the run.
  pub run-process_job :
      (begun : Clock) (w : World) (xs : List QueuedJob)
      → w.queue.channel ≡ x ∷ xs
      → is_ready race (w.queue.tokens x.cancel_token) ≡ true
      → End x.id
          (run (receives ∷ begins x.id begun ∷ rest) w)
          (process_job x race begun clock (record w.queue { channel = xs }))
  unfolding run step receives_step
  run-process_job begun w xs e ready =
      rw (receive-eq x xs w.queue e, receives_step)
        (received-End begun (move x.id (received x) (record w.queue { channel = xs }) w)
          (at_move x.id (received x) (record w.queue { channel = xs }) w) ready)
