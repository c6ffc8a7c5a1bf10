-- ===== src/Server/JobQueue/World/Cancelled.antt =====
-- A job that is cancelled while it waits, over the schedules of the job queue.
use mathlib.Core.Path.{subst}
use localdb.Prelude.{
  ℕ, ◌≡◌, ◌≢◌, refl, Bool, Option, some, List, [], ◌∷◌, Text, Option-cases, inl, inr, arith, lookup,
}
use localdb.Core.Jobs.{IndexJob, IndexJobState}
use localdb.Server.JobQueue.State.{JobHandle, QueuedJob, trigger}
use localdb.Server.JobQueue.Cancel.{cancel, list_jobs}
use localdb.Server.JobQueue.World.Invariant.{Good, Inv}
use localdb.Server.JobQueue.World.Doomed.{
  IsDoomed, Doomed, IsDoomed-kept, cancel-tokens, reserves-Doomed, installs-Doomed,
  publishes-Doomed, sends-Doomed, withdraws-Doomed, records_refusal-Doomed, closes_refusal-Doomed,
  receives_channel-Doomed, begins-Doomed, reports-Doomed, ends-Doomed, tears_down-Doomed,
  releases-Doomed,
}
use localdb.Server.JobQueue.World.Reached.{step-Inv, reached-Inv}
use localdb.Server.JobQueue.World.Safety.{cancel-live, Good-handle}
use localdb.Server.JobQueue.World.{
  Phase, absent, started, World, Action, reserves, installs, publishes, sends, withdraws,
  records_refusal, closes_refusal, receives, begins, reports, ends, tears_down, releases, cancels,
  lists, stops, step, run, first_world,
}

step-Doomed : (a : Action) (w : World) (i : Text) → Inv w → Doomed w i → Doomed (step a w) i
unfolding step list_jobs
step-Doomed (reserves k s) w i v d = reserves-Doomed w i v d (w.phase k) k s refl
step-Doomed (installs k scope now) w i v d = installs-Doomed w i v d (w.phase k) k scope now refl
step-Doomed (publishes k) w i v d = publishes-Doomed w i v d (w.phase k) k refl
step-Doomed (sends k) w i v d = sends-Doomed w i v d (w.phase k) k refl
step-Doomed (withdraws k) w i v d = withdraws-Doomed w i v d (w.phase k) k refl
step-Doomed (records_refusal k clock) w i v d =
    records_refusal-Doomed w i v d (w.phase k) k clock refl
step-Doomed (closes_refusal k) w i v d = closes_refusal-Doomed w i v d (w.phase k) k refl
step-Doomed receives w i v d = receives_channel-Doomed w i v d w.queue.channel refl
step-Doomed (begins k clock) w i v d = begins-Doomed w i v d (w.phase k) k clock refl
step-Doomed (reports k event) w i v d = reports-Doomed w i v d (w.phase k) event
step-Doomed (ends k race clock) w i v d = ends-Doomed w i v d (w.phase k) k race clock refl
step-Doomed (tears_down k) w i v d = tears_down-Doomed w i v d (w.phase k) k refl
step-Doomed (releases k) w i v d = releases-Doomed w i v d (w.phase k) k refl
step-Doomed (cancels k) w i v d =
    IsDoomed-kept i (w.phase i) w.queue (cancel k w.queue).0 (v.each i) (cancel-tokens k w.queue) d
step-Doomed (lists cutoff) w i v d = d
step-Doomed stops w i v d = d

run-Doomed :
    (schedule : List Action) (w : World) (i : Text) → Inv w → Doomed w i → Doomed (run schedule w) i
unfolding run
run-Doomed [] w i v d = d
run-Doomed (a ∷ schedule) w i v d =
    run-Doomed schedule (step a w) i (step-Inv a w v) (step-Doomed a w i v d)

pending-Doomed :
    (i : Text) (p : Phase) (job : IndexJob) (h : JobHandle) (n : ℕ) (t : ℕ → Bool)
    → Good i p (some job) (some h) n
    → job.state ≡ IndexJobState.pending
    → IsDoomed p (trigger h.cancel_token t)
pending-Doomed i absent job h n t g e = ground arith
pending-Doomed i p job h n t g e = ground arith

cancels-Doomed :
    (w : World) (i : Text) (job : IndexJob)
    → Inv w
    → lookup i w.queue.registry ≡ some job
    → job.state ≡ IndexJobState.pending
    → Doomed (step (cancels i) w) i
unfolding step
cancels-Doomed w i job v e pending = elim (Option-cases (lookup i w.queue.handles)) [
  | inl gone ↦ absurd (
      Good-handle i (w.phase i) job (lookup i w.queue.handles) w.queue.next_address (good _ refl)
        (ground arith) gone)
  | inr (h, f) ↦
      rw (cancel-live w.queue i job h e (ground arith) f)
        (pending-Doomed i (w.phase i) job h w.queue.next_address w.queue.tokens (good _ f) pending)
]
  where
    good :
        (h : Option JobHandle)
        → lookup i w.queue.handles ≡ h
        → Good i (w.phase i) (some job) h w.queue.next_address
    good h f =
        subst (λ o. Good i (w.phase i) o h w.queue.next_address) e
          (subst (λ o. Good i (w.phase i) (lookup i w.queue.registry) o w.queue.next_address) f
            (v.each i))

-- Whenever `cancel` meets a job that is pending, no worker starts that job afterwards, whatever
-- sections run before and after the call and in whatever order.
pub cancelled_never_starts :
    (before after : List Action) (i : Text) (job : IndexJob) (x : QueuedJob)
    → let w = run before first_world in
      lookup i w.queue.registry ≡ some job
      → job.state ≡ IndexJobState.pending
      → (run after (step (cancels i) w)).phase i ≢ started x
cancelled_never_starts before after i job x e pending s =
    let w = run before first_world in
    let v = reached-Inv before in
    subst (λ p. IsDoomed p (run after (step (cancels i) w)).queue.tokens) s
      (run-Doomed after (step (cancels i) w) i (step-Inv (cancels i) w v)
        (cancels-Doomed w i job v e pending))
