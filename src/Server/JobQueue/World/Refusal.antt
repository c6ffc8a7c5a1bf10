-- ===== src/Server/JobQueue/World/Refusal.antt =====
-- A submission whose receiver is gone, against its description.
use mathlib.Core.Path.{subst}
use localdb.Prelude.{
  ℕ, ◌≡◌, refl, sym, ◌∙◌, ap, true, false, Option, none, some, List, [], ◌∷◌, Text, codes, text_eq,
  text_eq_refl, text_eq_iff, ◌==◌, lookup, insert, lookup-insert, lookup-remove, contains,
  contains-delete, contains-cons, if◌then◌else◌, arith,
}
use localdb.Core.Jobs.{IndexJob, IndexJobScope, IndexJobState, create_index_job, fail_index_job}
use localdb.Server.JobQueue.State.{JobQueue, terminal, QueuedJob, Clock, max_terminal_jobs}
use localdb.Server.JobQueue.Evict.{
  update_entry, write_terminal, evict_oldest_terminal_jobs_over_cap,
}
use localdb.Server.JobQueue.Evict.Survivors.{WellKeyed, insert-WellKeyed}
use localdb.Server.JobQueue.Evict.Writes.{Kept, changed, lookup-written_other, lookup-written_self}
use localdb.Server.JobQueue.Submit.{
  install_handle, publish, enqueue, receiver_gone, release, record_refusal, close_refusal, accepted,
  answer, abandon, hand_over, submit,
}
use localdb.Server.JobQueue.World.Submission.{queue_after}
use localdb.Server.JobQueue.World.Effect.{
  Asked, Returned, fresh_handle, fresh_job, asked, before_send, submit-free, asked-answer,
}

enqueue-gone : (x : QueuedJob) (q : JobQueue) → q.closed ≡ true → enqueue x q ≡ receiver_gone
unfolding enqueue
enqueue-gone x q gone = rw (gone, enqueue) refl

hand_over-gone :
    (job : IndexJob) (x : QueuedJob) (clock : Clock) (q : JobQueue)
    → q.closed ≡ true
    → hand_over job x clock q ≡ abandon job x clock q
unfolding hand_over
hand_over-gone job x clock q gone = rw (enqueue-gone x q gone, hand_over) refl

module _ (store_id : Text) (scope : IndexJobScope) (i : Text) (clock : Clock) where
  module _ (q : JobQueue) (free : contains store_id q.inflight ≡ false) where
    abbrev refuse : IndexJob → IndexJob
    refuse job = fail_index_job job (codes "job queue is full or closed") clock.now

    refuse-Asked :
        Asked store_id scope i clock IndexJobState.failed
          (some (codes "job queue is full or closed"))
          (some clock.now)
          (refuse (asked store_id scope i clock))
    unfolding create_index_job fail_index_job
    refuse-Asked = (refl, refl, refl, refl, refl, refl, refl, refl, refl)

    refuse-id : (job : IndexJob) → (refuse job).id ≡ job.id
    unfolding fail_index_job
    refuse-id job = refl

    -- The registry after the refusal, and the state after its teardown.
    abbrev refused_registry : List (Text × IndexJob)
    refused_registry =
        evict_oldest_terminal_jobs_over_cap
          (update_entry refuse i (insert i (asked store_id scope i clock) q.registry))
          max_terminal_jobs i clock.cutoff

    abbrev torn_down_with : Option IndexJob → JobQueue
    torn_down_with snapshot =
        close_refusal i q.next_address snapshot
          (record (release store_id (before_send store_id scope i clock q)) {
            registry = refused_registry;
          })

    refused-lookup :
        WellKeyed q.registry
        → lookup i refused_registry ≡ some (refuse (asked store_id scope i clock))
    unfolding create_index_job
    refused-lookup keyed =
        let known : lookup i (insert i (asked store_id scope i clock) q.registry)
            ≡ some (asked store_id scope i clock) =
          ground
            (arith, text_eq_refl i, lookup-insert i i (asked store_id scope i clock) q.registry) in
        lookup-written_self refuse i (insert i (asked store_id scope i clock) q.registry)
          clock.cutoff refuse-id
          (insert-WellKeyed i (asked store_id scope i clock) q.registry refl keyed)
        ∙ ap (changed refuse) known

    refused-others :
        WellKeyed q.registry
        → (j : Text) → text_eq i j ≡ false
        → Kept (lookup j q.registry) (lookup j refused_registry)
    unfolding create_index_job
    refused-others keyed j other =
        let before : lookup j (insert i (asked store_id scope i clock) q.registry)
            ≡ lookup j q.registry =
          ground (arith, other, lookup-insert i j (asked store_id scope i clock) q.registry) in
        subst (λ entry. Kept entry (lookup j refused_registry)) before
          (lookup-written_other refuse i (insert i (asked store_id scope i clock) q.registry)
            clock.cutoff refuse-id
            (insert-WellKeyed i (asked store_id scope i clock) q.registry refl keyed) j other)

    abandon-snapshot :
        abandon
          (asked store_id scope i clock)
          (fresh_job store_id scope i clock q)
          clock
          (before_send store_id scope i clock q)
        ≡ answer (asked store_id scope i clock) (torn_down_with (lookup i refused_registry))
    unfolding abandon record_refusal write_terminal release before_send publish install_handle
        create_index_job
    abandon-snapshot = refl

    returned_handles :
        (j : Text)
        → lookup j (torn_down_with (some (refuse (asked store_id scope i clock)))).handles
          ≡ (if text_eq i j then none else lookup j q.handles)
    unfolding close_refusal release before_send publish install_handle
    returned_handles j = ground (
      arith,
      lookup-remove i j (insert i (fresh_handle store_id scope i clock q) q.handles),
      lookup-insert i j (fresh_handle store_id scope i clock q) q.handles,
    )

    returned_inflight :
        (s : Text)
        → contains s (torn_down_with (some (refuse (asked store_id scope i clock)))).inflight
          ≡ contains s q.inflight
    unfolding close_refusal release before_send publish install_handle
    returned_inflight s = ground (
      arith,
      free,
      text_eq_iff store_id s,
      contains-delete store_id s (store_id ∷ q.inflight),
      contains-cons store_id s q.inflight,
    )

    returned_sent :
        (a : ℕ)
        → (torn_down_with (some (refuse (asked store_id scope i clock)))).sent a ≡ (
            if q.next_address == a
            then terminal (refuse (asked store_id scope i clock)) ∷ []
            else q.sent a)
    unfolding close_refusal release before_send publish install_handle
    returned_sent a = ground arith

    torn_down_with-Returned :
        WellKeyed q.registry
        → Returned store_id scope i clock
            (refuse (asked store_id scope i clock))
            q
            (torn_down_with (some (refuse (asked store_id scope i clock))))
    unfolding close_refusal release before_send publish install_handle
    torn_down_with-Returned keyed = (
      refuse-Asked,
      refused-lookup keyed,
      refused-others keyed,
      returned_handles,
      returned_inflight,
      λ a. refl,
      returned_sent,
      refl,
    )

    before_send-closed : (before_send store_id scope i clock q).closed ≡ q.closed
    unfolding before_send publish install_handle
    before_send-closed = refl

    torn_down-registry : (job : IndexJob) → (torn_down_with (some job)).registry ≡ refused_registry
    unfolding close_refusal
    torn_down-registry job = refl

    pub gone-Effect :
        q.closed ≡ true
        → WellKeyed q.registry
        → let call = submit store_id scope i clock q in
          (job : IndexJob) × (call ≡ accepted job (queue_after call q))
          × Returned store_id scope i clock job q (queue_after call q)
    gone-Effect gone keyed =
        let end = torn_down_with (some (refuse (asked store_id scope i clock))) in
        let mine = refused-lookup keyed in
        let there : lookup i end.registry ≡ some (refuse (asked store_id scope i clock)) =
          ap (lookup i) (torn_down-registry (refuse (asked store_id scope i clock))) ∙ mine in
        let call : submit store_id scope i clock q
            ≡ accepted (refuse (asked store_id scope i clock)) end =
          submit-free store_id scope i clock q free
          ∙ (hand_over-gone (asked store_id scope i clock) (fresh_job store_id scope i clock q)
                clock (before_send store_id scope i clock q) (before_send-closed ∙ gone)
              ∙ (abandon-snapshot
                  ∙ (ap
                        (λ snapshot.
                          answer (asked store_id scope i clock) (torn_down_with snapshot))
                        mine
                      ∙ asked-answer store_id scope i clock end
                          (refuse (asked store_id scope i clock)) there))) in
        subst
          (λ c.
            (job : IndexJob) × (c ≡ accepted job (queue_after c q))
            × Returned store_id scope i clock job q (queue_after c q))
          (sym call) (refuse (asked store_id scope i clock), refl, torn_down_with-Returned keyed)
