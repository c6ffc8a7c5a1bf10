-- ===== src/Server/JobQueue/World/Outcomes.antt =====
-- Recorded outcomes and running entries, over the schedules of the job queue.
use mathlib.Core.Path.{subst}
use localdb.Prelude.{
  ◌≡◌, refl, ◌⊎◌, inl, true, none, some, List, [], ◌∷◌, Text, lookup, arith, Option, ℕ,
}
use localdb.Core.Errors.{index_in_progress, err}
use localdb.Core.Jobs.{IndexJob, IndexJobState, is_terminal}
use localdb.Server.JobQueue.State.{JobHandle, QueuedJob}
use localdb.Server.JobQueue.Submit.{reserve}
use localdb.Server.JobQueue.World.Invariant.{Inv, Good}
use localdb.Server.JobQueue.World.Reached.{step-Inv, reached-Inv}
use localdb.Server.JobQueue.World.Final.{Final, Good-IsPast}
use localdb.Server.JobQueue.World.FinalSubmit.{
  reserves-Final, installs-Final, publishes-Final, sends-Final, withdraws-Final,
  records_refusal-Final, closes_refusal-Final,
}
use localdb.Server.JobQueue.World.FinalWork.{
  receives_channel-Final, begins-Final, reports-Final, ends-Final, tears_down-Final, releases-Final,
  cancels-Final, lists-Final,
}
use localdb.Server.JobQueue.World.{
  Phase, started, World, first_world, Action, reserves, installs, publishes, sends, withdraws,
  records_refusal, closes_refusal, receives, begins, reports, ends, tears_down, releases, cancels,
  lists, stops, step, run,
}

step-Final :
    (job : IndexJob) (a : Action) (w : World) (i : Text)
    → Inv w
    → Final job w i
    → Final job (step a w) i
unfolding step
step-Final job (reserves k s) w i v d = reserves-Final job w i v d (w.phase k) k s refl
step-Final job (installs k scope now) w i v d =
    installs-Final job w i v d (w.phase k) k scope now refl
step-Final job (publishes k) w i v d = publishes-Final job w i v d (w.phase k) k refl
step-Final job (sends k) w i v d = sends-Final job w i v d (w.phase k) k refl
step-Final job (withdraws k) w i v d = withdraws-Final job w i v d (w.phase k) k refl
step-Final job (records_refusal k clock) w i v d =
    records_refusal-Final job w i v d (w.phase k) k clock refl
step-Final job (closes_refusal k) w i v d = closes_refusal-Final job w i v d (w.phase k) k refl
step-Final job receives w i v d = receives_channel-Final job w i v d w.queue.channel refl
step-Final job (begins k clock) w i v d = begins-Final job w i v d (w.phase k) k clock refl
step-Final job (reports k event) w i v d = reports-Final job w i v d (w.phase k) event
step-Final job (ends k race clock) w i v d = ends-Final job w i v d (w.phase k) k race clock refl
step-Final job (tears_down k) w i v d = tears_down-Final job w i v d (w.phase k) k refl
step-Final job (releases k) w i v d = releases-Final job w i v d (w.phase k) k refl
step-Final job (cancels k) w i v d = cancels-Final job w i v d k
step-Final job (lists cutoff) w i v d = lists-Final job w i v d cutoff
step-Final job stops w i v d = d

run-Final :
    (job : IndexJob) (schedule : List Action) (w : World) (i : Text)
    → Inv w
    → Final job w i
    → Final job (run schedule w) i
unfolding run
run-Final job [] w i v d = d
run-Final job (a ∷ schedule) w i v d =
    run-Final job schedule (step a w) i (step-Inv a w v) (step-Final job a w i v d)

-- What a reached world knows of a job from its entry.
entry-Good :
    (before : List Action) (i : Text) (job : IndexJob)
    → let w = run before first_world in
      lookup i w.queue.registry ≡ some job
      → Good i (w.phase i) (some job) (lookup i w.queue.handles) w.queue.next_address
entry-Good before i job e =
    let w = run before first_world in
    subst (λ o. Good i (w.phase i) o (lookup i w.queue.handles) w.queue.next_address) e
      ((reached-Inv before).each i)

-- Once the registry shows a job as done or failed, the entry is never changed again: after any
-- further schedule it is the same, or evicted.
pub outcome_stays :
    (before after : List Action) (i : Text) (job : IndexJob)
    → let w = run before first_world in
      lookup i w.queue.registry ≡ some job
      → is_terminal job.state ≡ true
      → (lookup i (run after w).queue.registry ≡ some job)
        ⊎ (lookup i (run after w).queue.registry ≡ none)
outcome_stays before after i job e ended =
    let w = run before first_world in
    (run-Final job after w i (reached-Inv before)
      (Good-IsPast i (w.phase i) job _ _ (entry-Good before i job e) ended, inl e)).1

started_of_running :
    (i : Text) (p : Phase) (job : IndexJob) (h : Option JobHandle) (n : ℕ)
    → Good i p (some job) h n
    → job.state ≡ IndexJobState.running
    → (x : QueuedJob) × (p ≡ started x) × (x.store_id ≡ job.store_id)
started_of_running i (started x) job h n g e = (x, refl, ground arith)
started_of_running i p job h n g e = ground arith

-- After any schedule, a job that the registry shows as running has a worker in its run, and a new
-- job of its store is refused.
pub running-reserve :
    (schedule : List Action) (i : Text) (job : IndexJob)
    → let w = run schedule first_world in
      lookup i w.queue.registry ≡ some job
      → job.state ≡ IndexJobState.running
      → (x : QueuedJob) × (w.phase i ≡ started x)
        × (reserve job.store_id w.queue ≡ err index_in_progress)
unfolding reserve
running-reserve schedule i job e running =
    let w = run schedule first_world in
    let (x, at, mine) =
      started_of_running i (w.phase i) job _ _ (entry-Good schedule i job e) running in
    (x, at, ground (arith, (reached-Inv schedule).guarded i job.store_id))
