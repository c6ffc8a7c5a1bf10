-- ===== src/Server/JobQueue/World/Reached.antt =====
-- The invariant over the schedules of the job queue.
use localdb.Prelude.{refl, List, [], ◌∷◌, lookup}
use localdb.Server.JobQueue.State.{new}
use localdb.Server.JobQueue.World.Invariant.{Inv}
use localdb.Server.JobQueue.World.Submitting.{
  reserves-Inv, installs-Inv, publishes-Inv, sends-Inv, withdraws-Inv, records_refusal-Inv,
  closes_refusal-Inv,
}
use localdb.Server.JobQueue.World.Working.{
  receives-Inv, begins-Inv, reports-Inv, ends-Inv, tears_down-Inv, releases-Inv, cancels-Inv,
  lists-Inv,
}
use localdb.Server.JobQueue.World.{
  World, first_world, Action, reserves, installs, publishes, sends, withdraws, records_refusal,
  closes_refusal, receives, begins, reports, ends, tears_down, releases, cancels, lists, stops,
  step, run,
}

pub first_world-Inv : Inv first_world
unfolding first_world new lookup
first_world-Inv = record {
  keyed = tt;
  each = λ i. (refl, refl);
  waiting = tt;
  guarded = λ i s h. cc;
  exclusive = λ i j s h h'. cc;
}

pub step-Inv : (a : Action) (w : World) → Inv w → Inv (step a w)
unfolding step
step-Inv (reserves i s) w v = reserves-Inv (w.phase i) i s w refl v
step-Inv (installs i scope now) w v = installs-Inv (w.phase i) i scope now w refl v
step-Inv (publishes i) w v = publishes-Inv (w.phase i) i w refl v
step-Inv (sends i) w v = sends-Inv (w.phase i) i w refl v
step-Inv (withdraws i) w v = withdraws-Inv (w.phase i) i w refl v
step-Inv (records_refusal i clock) w v = records_refusal-Inv (w.phase i) i clock w refl v
step-Inv (closes_refusal i) w v = closes_refusal-Inv (w.phase i) i w refl v
step-Inv receives w v = receives-Inv w v
step-Inv (begins i clock) w v = begins-Inv (w.phase i) i clock w refl v
step-Inv (reports i event) w v = reports-Inv (w.phase i) event w v
step-Inv (ends i race clock) w v = ends-Inv (w.phase i) i race clock w refl v
step-Inv (tears_down i) w v = tears_down-Inv (w.phase i) i w refl v
step-Inv (releases i) w v = releases-Inv (w.phase i) i w refl v
step-Inv (cancels i) w v = cancels-Inv i w v
step-Inv (lists cutoff) w v = lists-Inv cutoff w v
step-Inv stops w v = record {
  keyed = v.keyed;
  each = v.each;
  waiting = v.waiting;
  guarded = v.guarded;
  exclusive = v.exclusive;
}

pub run-Inv : (schedule : List Action) (w : World) → Inv w → Inv (run schedule w)
unfolding run
run-Inv [] w v = v
run-Inv (a ∷ schedule) w v = run-Inv schedule (step a w) (step-Inv a w v)

pub reached-Inv : (schedule : List Action) → Inv (run schedule first_world)
reached-Inv schedule = run-Inv schedule first_world first_world-Inv
