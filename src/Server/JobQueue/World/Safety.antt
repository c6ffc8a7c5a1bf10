-- ===== src/Server/JobQueue/World/Safety.antt =====
-- What clients and stores may rely on after any schedule of critical sections.
use localdb.Prelude.{
  ℕ, ◌≡◌, ◌≢◌, ◌∙◌, ap, true, false, Option, none, some, List, Text, lookup, Option-cases, inl, inr,
  arith,
}
use mathlib.Core.Path.{subst}
use localdb.Core.Errors.{ok}
use localdb.Core.Jobs.{IndexJob, is_terminal}
use localdb.Server.JobQueue.State.{JobQueue, JobHandle, QueuedJob, trigger}
use localdb.Server.JobQueue.Cancel.{cancel, trigger_handle, resolve_post_trigger_outcome}
use localdb.Server.JobQueue.World.Invariant.{Good}
use localdb.Server.JobQueue.World.Reached.{reached-Inv}
use localdb.Server.JobQueue.World.{Phase, absent, World, first_world, Action, started, run}

pub Good-handle :
    (i : Text) (p : Phase) (job : IndexJob) (h : Option JobHandle) (n : ℕ)
    → Good i p (some job) h n
    → is_terminal job.state ≡ false
    → h ≢ none
Good-handle i absent job h n g live = ground arith
Good-handle i p job h n g live = ground arith

-- One call of `cancel` on a job that is neither done nor failed and has its handle.
pub cancel-live :
    (q : JobQueue) (i : Text) (job : IndexJob) (h : JobHandle)
    → lookup i q.registry ≡ some job
    → is_terminal job.state ≡ false
    → lookup i q.handles ≡ some h
    → cancel i q ≡ (record q { tokens = trigger h.cancel_token q.tokens }, ok job)
unfolding cancel trigger_handle resolve_post_trigger_outcome
cancel-live q i job h e live f = ground arith

-- After any schedule, `cancel` of a job that the registry shows as pending or running answers that
-- job, and triggers the token of the handle that is installed for it. The internal error of a
-- missing handle is never answered.
pub cancel_finds_handle :
    (schedule : List Action) (i : Text) (job : IndexJob)
    → let q = (run schedule first_world).queue in
      lookup i q.registry ≡ some job
      → is_terminal job.state ≡ false
      → ((cancel i q).1 ≡ ok job)
        × ((h : JobHandle) × (lookup i q.handles ≡ some h)
            × ((cancel i q).0.tokens h.cancel_token ≡ true))
cancel_finds_handle schedule i job e live = elim (Option-cases (lookup i q.handles)) [
  | inl gone ↦ absurd (
      Good-handle i (w.phase i) job (lookup i q.handles) q.next_address
        (subst (λ o. Good i (w.phase i) o (lookup i q.handles) q.next_address) e
          ((reached-Inv schedule).each i))
        live gone)
  | inr (h, f) ↦
      let c = cancel-live q i job h e live f in
      (ap (λ r. r.1) c, (h, f, ap (λ r. r.0.tokens h.cancel_token) c ∙ ground arith))
]
  where
    w : World
    w = run schedule first_world

    q : JobQueue
    q = w.queue

-- After any schedule, two jobs that run at the same time are of different stores.
pub started_exclusive :
    (schedule : List Action) (i j : Text) (x y : QueuedJob)
    → let w = run schedule first_world in
      w.phase i ≡ started x → w.phase j ≡ started y → x.store_id ≡ y.store_id → i ≡ j
started_exclusive schedule i j x y e f same =
    (reached-Inv schedule).exclusive i j x.store_id (ground arith) (ground arith)
