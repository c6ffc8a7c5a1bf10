-- ===== src/Server/JobQueue/World/Tests.antt =====
-- Concrete schedules of the job queue.
use localdb.Prelude.{
  ◌≡◌, ◌≢◌, ◌⊎◌, inr, arith, refl, true, false, none, some, List, [], ◌∷◌, ◌++◌, text_eq, codes,
  lookup, insert, contains,
}
use localdb.Core.Errors.{ok, err, index_in_progress}
use localdb.Core.Jobs.{
  IndexJob, no_stats, whole_store, create_index_job, start_index_job, complete_index_job,
}
use localdb.Server.JobQueue.State.{JobHandle, QueuedJob, Clock, new}
use localdb.Server.JobQueue.Evict.{
  update_entry, write_terminal, evict_oldest_terminal_jobs_over_cap,
}
use localdb.Server.JobQueue.Submit.{submit, reserve, install_handle, publish, enqueue}
use localdb.Server.JobQueue.Cancel.{cancel, resolve_post_trigger_outcome, trigger_handle}
use localdb.Server.JobQueue.Worker.{
  Race, handle_wins, process_job, receive, begin_job, outcome_of, record_outcome, apply_job_outcome,
}
use localdb.Server.JobQueue.World.{
  Action, reserves, installs, publishes, sends, receives, begins, ends, tears_down, cancels, step,
  run, first_world, started, over, reserves_at, installs_at, publishes_at, sends_at, receives_step,
  begins_at, ends_at,
}
use localdb.Server.JobQueue.World.Cancelled.{cancelled_never_starts}
use localdb.Server.JobQueue.World.Outcomes.{outcome_stays, running-reserve}
use localdb.Server.JobQueue.World.Submission.{submission}
use localdb.Server.JobQueue.World.Effect.{Effect}
use localdb.Server.JobQueue.World.Submitted.{run-Effect}
use localdb.Server.JobQueue.World.Whole.{rest}
use localdb.Server.JobQueue.World.Ended.{Ends, run-Ends}
use localdb.Server.JobQueue.World.Safety.{cancel_finds_handle, started_exclusive}

abbrev noon : Clock
noon = record { now = codes "noon"; cutoff = codes "morning" }

abbrev submitted : List Action
submitted =
    reserves (codes "j") (codes "s")
    ∷ installs (codes "j") whole_store (codes "dawn")
    ∷ publishes (codes "j")
    ∷ sends (codes "j")
    ∷ []

abbrev begun : List Action
begun = submitted ++ receives ∷ begins (codes "j") noon ∷ []

abbrev pending_job : IndexJob
pending_job = create_index_job (codes "j") (codes "s") whole_store (codes "dawn")

abbrev queued_j : QueuedJob
queued_j = record { id = codes "j"; store_id = codes "s"; sink = 0; cancel_token = 0 }

begun_starts : (run begun first_world).phase (codes "j") ≡ started queued_j
unfolding run step first_world reserve install_handle publish enqueue receive begin_job cancel
    trigger_handle resolve_post_trigger_outcome lookup insert contains update_entry start_index_job
    new create_index_job begins_at receives_step sends_at publishes_at installs_at reserves_at
    text_eq
begun_starts = refl

cancelled_never_starts_example :
    (run
        (receives ∷ begins (codes "j") noon ∷ [])
        (step (cancels (codes "j")) (run submitted first_world))).phase
      (codes "j")
    ≢ started queued_j
unfolding run step first_world reserve install_handle publish enqueue receive begin_job cancel
    trigger_handle resolve_post_trigger_outcome lookup insert contains update_entry start_index_job
    new create_index_job begins_at receives_step sends_at publishes_at installs_at reserves_at
    text_eq
cancelled_never_starts_example =
    cancelled_never_starts submitted (receives ∷ begins (codes "j") noon ∷ []) (codes "j")
      pending_job queued_j refl refl

cancel_finds_handle_example :
    ((cancel (codes "j") (run begun first_world).queue).1
      ≡ ok (start_index_job pending_job (codes "noon")))
    × ((h : JobHandle) × (lookup (codes "j") (run begun first_world).queue.handles ≡ some h)
        × ((cancel (codes "j") (run begun first_world).queue).0.tokens h.cancel_token ≡ true))
unfolding run step first_world reserve install_handle publish enqueue receive begin_job cancel
    trigger_handle resolve_post_trigger_outcome lookup insert contains update_entry start_index_job
    new create_index_job begins_at receives_step sends_at publishes_at installs_at reserves_at
    text_eq
cancel_finds_handle_example =
    cancel_finds_handle begun (codes "j") (start_index_job pending_job (codes "noon")) refl refl

started_exclusive_example : codes "j" ≡ codes "j"
unfolding run step first_world reserve install_handle publish enqueue receive begin_job cancel
    trigger_handle resolve_post_trigger_outcome lookup insert contains update_entry start_index_job
    new create_index_job begins_at receives_step sends_at publishes_at installs_at reserves_at
    text_eq
started_exclusive_example =
    started_exclusive begun (codes "j") (codes "j") queued_j queued_j refl refl refl

abbrev finished_j : List Action
finished_j = begun ++ ends (codes "j") (handle_wins (ok (ok no_stats))) noon ∷ []

abbrev done_job : IndexJob
done_job = complete_index_job (start_index_job pending_job (codes "noon")) no_stats (codes "noon")

outcome_stays_example :
    let w = run finished_j first_world in
    let later = cancels (codes "j") ∷ tears_down (codes "j") ∷ [] in
    (lookup (codes "j") (run later w).queue.registry ≡ some done_job)
    ⊎ (lookup (codes "j") (run later w).queue.registry ≡ none)
unfolding run step first_world reserve install_handle publish enqueue receive begin_job cancel
    trigger_handle resolve_post_trigger_outcome lookup insert contains update_entry start_index_job
    new create_index_job begins_at receives_step sends_at publishes_at installs_at reserves_at
    text_eq ends_at record_outcome write_terminal outcome_of apply_job_outcome complete_index_job
    evict_oldest_terminal_jobs_over_cap
outcome_stays_example =
    outcome_stays finished_j (cancels (codes "j") ∷ tears_down (codes "j") ∷ []) (codes "j")
      done_job refl refl

running-reserve_example :
    (x : QueuedJob) × ((run begun first_world).phase (codes "j") ≡ started x)
    × (reserve (codes "s") (run begun first_world).queue ≡ err index_in_progress)
unfolding run step first_world reserve install_handle publish enqueue receive begin_job cancel
    trigger_handle resolve_post_trigger_outcome lookup insert contains update_entry start_index_job
    new create_index_job begins_at receives_step sends_at publishes_at installs_at reserves_at
    text_eq
running-reserve_example =
    running-reserve begun (codes "j") (start_index_job pending_job (codes "noon")) refl refl

abbrev done_run : Race
done_run = handle_wins (ok (ok no_stats))

run-Ends_example :
    let end =
      run
        (receives ∷ begins (codes "j") noon ∷ rest queued_j done_run noon)
        (run submitted first_world) in
    let taken = record (run submitted first_world).queue { channel = [] } in
    (end.phase (codes "j") ≡ over)
    × (end.queue ≡ process_job queued_j done_run noon noon taken)
    × Ends queued_j taken done_run noon noon pending_job end.queue
unfolding run step first_world reserve install_handle publish enqueue receive begin_job cancel
    trigger_handle resolve_post_trigger_outcome lookup insert contains update_entry start_index_job
    new create_index_job begins_at receives_step sends_at publishes_at installs_at reserves_at
    text_eq
run-Ends_example =
    run-Ends queued_j done_run noon noon (run submitted first_world) [] pending_job refl refl
      (refl, refl, tt) refl

run-Effect_example :
    Effect
      (codes "s")
      whole_store
      (codes "j")
      noon
      false
      false
      new
      (submit (codes "s") whole_store (codes "j") noon new)
      (run (submission (codes "j") noon (codes "s") whole_store) first_world).queue
unfolding first_world new contains
run-Effect_example =
    run-Effect (codes "s") whole_store (codes "j") noon first_world refl (inr (omega arith)) tt
