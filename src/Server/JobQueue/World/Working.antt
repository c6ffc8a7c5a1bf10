-- ===== src/Server/JobQueue/World/Working.antt =====
-- The sections of `process_job`, and those of the clients, keep the invariant.
use mathlib.Core.Path.{subst}
use localdb.Prelude.{
  ℕ, ◌≡◌, refl, inl, inr, Bool, true, none, some, List, [], ◌∷◌, Text, text_eq_iff, lookup,
  Bool-cases, Option-cases, arith,
}
use localdb.Core.Errors.{job_cancelled}
use localdb.Core.Jobs.{
  IndexJob, start_index_job, complete_index_job, fail_index_job, fail_index_job_with_error,
  is_terminal,
}
use localdb.Core.Progress.{ProgressEvent}
use localdb.Server.JobQueue.State.{
  JobQueue, QueuedJob, Clock, report_progress, trigger, max_terminal_jobs,
}
use localdb.Server.JobQueue.Evict.{update_entry, terminal_job}
use localdb.Server.JobQueue.Evict.Survivors.{lookup-evict, evict-WellKeyed}
use localdb.Server.JobQueue.Evict.Writes.{lookup-update_entry, update_entry-WellKeyed}
use localdb.Server.JobQueue.Submit.{release}
use localdb.Server.JobQueue.Cancel.{cancel, list_jobs, trigger_handle}
use localdb.Core.Errors.{ok, err}
use localdb.Server.JobQueue.Worker.{
  JobOutcome, finished, cancelled, task_build_panicked, Race, outcome_of, apply_job_outcome,
  receive, begin_job, record_outcome,
}
use localdb.Server.JobQueue.World.Invariant.{GoodAt, Good-Kept, IsWaiting, Inv}
use localdb.Server.JobQueue.World.Frame.{IsWaiting-set, IsWaiting-receive}
use localdb.Server.JobQueue.World.Guards.{Guards-keep, Guards-release}
use localdb.Server.JobQueue.World.Step.{
  move-Inv, write_as-Inv, remove_handle-Inv, teardown-shape, IsSettled-changed,
}
use localdb.Server.JobQueue.World.{
  Phase, received, started, ended, torn_down, over, World, receives_step, begins_at, reports_at,
  is_ready, ends_at, tears_down_at, releases_at,
}

-- Every outcome is a terminal write, under the job's own id.
pub apply_job_outcome-terminal :
    (job : IndexJob) (outcome : JobOutcome) (now : Text)
    → (is_terminal (apply_job_outcome job outcome now).state ≡ true)
      × ((apply_job_outcome job outcome now).id ≡ job.id)
unfolding apply_job_outcome complete_index_job fail_index_job fail_index_job_with_error
apply_job_outcome-terminal job (finished (ok (ok stats))) now = (refl, refl)
apply_job_outcome-terminal job (finished (ok (err e))) now = (refl, refl)
apply_job_outcome-terminal job (finished (err join_err)) now = (refl, refl)
apply_job_outcome-terminal job cancelled now = (refl, refl)
apply_job_outcome-terminal job (task_build_panicked message) now = (refl, refl)

pub receive-eq :
    (x : QueuedJob) (xs : List QueuedJob) (q : JobQueue)
    → q.channel ≡ x ∷ xs
    → receive q ≡ some (x, record q { channel = xs })
unfolding receive
receive-eq x xs q e = ground arith

pub receive-eq_none : (q : JobQueue) → q.channel ≡ [] → receive q ≡ none
unfolding receive
receive-eq_none q e = ground arith

receives_channel-Inv :
    (xs : List QueuedJob) (w : World) → w.queue.channel ≡ xs → Inv w → Inv (receives_step w)
unfolding receives_step
receives_channel-Inv [] w e v = rw (receive-eq_none w.queue e, receives_step) v
receives_channel-Inv (x ∷ xs) w e v =
    rw (receive-eq x xs w.queue e, receives_step)
      (move-Inv w x.id (received x) (record w.queue { channel = xs }) v v.keyed
        (ground (arith, v.each x.id, waits)) (λ j other. (inl refl, refl)) (omega arith)
        (IsWaiting-receive x (received x) w.phase xs waits)
        (Guards-keep x.id (received x) w.phase w.queue.inflight (ground (arith, waits))
          (v.guarded, v.exclusive)))
  where
    waits : IsWaiting w.phase (x ∷ xs)
    waits = subst (IsWaiting w.phase) e v.waiting

pub receives-Inv : (w : World) → Inv w → Inv (receives_step w)
receives-Inv w v = receives_channel-Inv w.queue.channel w refl v

pub begins-Inv :
    (p : Phase) (i : Text) (clock : Clock) (w : World)
    → w.phase i ≡ p
    → Inv w
    → Inv (begins_at p i clock w)
unfolding begins_at begin_job start_index_job fail_index_job_with_error
begins-Inv (received x) i clock w e v = elim (Bool-cases (w.queue.tokens x.cancel_token)) [
  | inl triggered ↦
      rw (triggered, begins_at, begin_job)
        (write_as-Inv w i x.id (ended x)
          (λ job. fail_index_job_with_error job job_cancelled clock.now) clock.cutoff mine v
          (λ job. refl)
          (λ snapshot. (
            IsSettled-changed _ (lookup i w.queue.registry) (λ job. refl),
            ground (arith, good),
            mine,
            ground (arith, good),
          ))
          (ground arith) (λ snapshot. ground arith))
  | inr untouched ↦
      rw (untouched, begins_at, begin_job)
        (move-Inv w i (started x)
          (record w.queue {
            registry = update_entry (λ job. start_index_job job clock.now) x.id w.queue.registry;
          })
          v
          (update_entry-WellKeyed (λ job. start_index_job job clock.now) x.id w.queue.registry
            (λ job. refl) v.keyed)
          (ground (
            arith,
            good,
            text_eq_iff x.id i,
            lookup-update_entry (λ job. start_index_job job clock.now) x.id w.queue.registry i,
          ))
          (λ j other. ground (
            arith,
            mine,
            lookup-update_entry (λ job. start_index_job job clock.now) x.id w.queue.registry j,
          ))
          (omega arith)
          (IsWaiting-set i (started x) w.phase w.queue.channel (ground arith) v.waiting)
          (Guards-keep i (started x) w.phase w.queue.inflight (ground arith)
            (v.guarded, v.exclusive)))
]
  where
    good : GoodAt w i
    good = v.each i

    mine : x.id ≡ i
    mine = ground (arith, good)
begins-Inv _ i clock w e v = v

pub reports-Inv :
    (p : Phase) (event : ProgressEvent) (w : World) → Inv w → Inv (reports_at p event w)
unfolding reports_at report_progress
reports-Inv (started x) event w v = record {
  keyed = v.keyed;
  each = v.each;
  waiting = v.waiting;
  guarded = v.guarded;
  exclusive = v.exclusive;
}
reports-Inv _ event w v = v

pub ends-Inv :
    (p : Phase) (i : Text) (race : Race) (clock : Clock) (w : World)
    → w.phase i ≡ p
    → Inv w
    → Inv (ends_at p i race clock w)
unfolding ends_at record_outcome
ends-Inv (started x) i race clock w e v =
    elim (Bool-cases (is_ready race (w.queue.tokens x.cancel_token))) [
      | inl ready ↦
          rw (ready, ends_at)
            (write_as-Inv w i x.id (ended x)
              (λ job. apply_job_outcome job (outcome_of race) clock.now) clock.cutoff mine v
              (λ job. (apply_job_outcome-terminal job (outcome_of race) clock.now).1)
              (λ snapshot. (
                IsSettled-changed _ (lookup i w.queue.registry)
                    (λ job. (apply_job_outcome-terminal job (outcome_of race) clock.now).0),
                ground (arith, good),
                mine,
                ground (arith, good),
              ))
              (ground arith) (λ snapshot. ground arith))
      | inr early ↦ rw (early, ends_at) v
    ]
  where
    good : GoodAt w i
    good = v.each i

    mine : x.id ≡ i
    mine = ground (arith, good)
ends-Inv _ i race clock w e v = v

pub tears_down-Inv :
    (p : Phase) (i : Text) (w : World) → w.phase i ≡ p → Inv w → Inv (tears_down_at p i w)
unfolding tears_down_at
tears_down-Inv (ended x snapshot) i w e v =
    remove_handle-Inv w i (torn_down x) _ (teardown-shape i snapshot w.queue) v
      (ground (arith, v.each i)) (ground arith) (ground arith)
tears_down-Inv _ i w e v = v

pub releases-Inv :
    (p : Phase) (i : Text) (w : World) → w.phase i ≡ p → Inv w → Inv (releases_at p i w)
unfolding releases_at release
releases-Inv (torn_down x) i w e v =
    move-Inv w i over (release x.store_id w.queue) v v.keyed (ground (arith, v.each i))
      (λ j other. (inl refl, refl)) (omega arith)
      (IsWaiting-set i over w.phase w.queue.channel (ground arith) v.waiting)
      (Guards-release i over w.phase w.queue.inflight x.store_id (ground arith) refl
        (v.guarded, v.exclusive))
releases-Inv _ i w e v = v

-- `cancel` changes the tokens alone.
pub cancel-shape :
    (i : Text) (q : JobQueue) → (t : (ℕ → Bool)) × ((cancel i q).0 ≡ record q { tokens = t })
unfolding cancel trigger_handle
cancel-shape i q = elim (Option-cases (lookup i q.registry)) [
  | inl e ↦ (q.tokens, rw (e, cancel))
  | inr (job, e) ↦ elim (Bool-cases (terminal_job job)) [
    | inl over_ ↦ (q.tokens, rw (e, cancel) (rw over_))
    | inr live ↦ elim (Option-cases (lookup i q.handles)) [
      | inl f ↦ (q.tokens, rw (e, cancel) (rw (live, f)))
      | inr (h, f) ↦ (trigger h.cancel_token q.tokens, rw (e, cancel) (rw (live, f)))
    ]
  ]
]

pub cancels-Inv : (i : Text) (w : World) → Inv w → Inv (record w { queue = (cancel i w.queue).0 })
cancels-Inv i w v =
    let (t, shape) = cancel-shape i w.queue in
    rw shape (record {
      keyed = v.keyed;
      each = v.each;
      waiting = v.waiting;
      guarded = v.guarded;
      exclusive = v.exclusive;
    })

pub lists-Inv :
    (cutoff : Text) (w : World) → Inv w → Inv (record w { queue = (list_jobs cutoff w.queue).0 })
unfolding list_jobs
lists-Inv cutoff w v = record {
  keyed = evict-WellKeyed w.queue.registry max_terminal_jobs [] cutoff v.keyed;
  each = λ i.
      Good-Kept i (w.phase i) (lookup i w.queue.registry) _ _ _ _ _ (v.each i)
        (ground (arith, lookup-evict i w.queue.registry max_terminal_jobs [] cutoff v.keyed)) refl
        (omega arith);
  waiting = v.waiting;
  guarded = v.guarded;
  exclusive = v.exclusive;
}
