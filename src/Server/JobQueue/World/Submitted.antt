-- ===== src/Server/JobQueue/World/Submitted.antt =====
-- A whole submission, against its description.
use mathlib.Core.Path.{subst}
use localdb.Prelude.{
  ◌<◌, ◌≡◌, refl, sym, ◌∙◌, ap, Bool, true, false, none, some, [], ◌∷◌, ◌++◌, Text, text_eq_refl,
  ltb, length, lookup, lookup-insert, contains, contains-cons, arith,
}
use localdb.Core.Jobs.{IndexJob, IndexJobScope, IndexJobState, create_index_job}
use localdb.Server.JobQueue.State.{JobQueue, Clock, queue_capacity}
use localdb.Server.JobQueue.Evict.Survivors.{WellKeyed}
use localdb.Server.JobQueue.Submit.{
  install_handle, publish, enqueue, accepted, answer, hand_over, submit,
}
use localdb.Server.JobQueue.World.{World, absent, run}
use localdb.Server.JobQueue.World.Submission.{IsReady, queue_after, submission, run-submit}
use localdb.Server.JobQueue.World.Effect.{
  Asked, Handed, Effect, fresh_handle, fresh_job, asked, before_send, submit-taken, submit-free,
  asked-answer, before_send-lookup,
}
use localdb.Server.JobQueue.World.Refusal.{gone-Effect}

module _ (store_id : Text) (scope : IndexJobScope) (i : Text) (clock : Clock) where
  module _ (q : JobQueue) (free : contains store_id q.inflight ≡ false) where
    sent_on : JobQueue
    unfolding before_send
    sent_on = record (before_send store_id scope i clock q) {
      channel = q.channel ++ fresh_job store_id scope i clock q ∷ [];
    }

    asked-Asked :
        Asked store_id scope i clock IndexJobState.pending none none (asked store_id scope i clock)
    unfolding create_index_job
    asked-Asked = (refl, refl, refl, refl, refl, refl, refl, refl, refl)

    sent_on-Handed : Handed store_id scope i clock (asked store_id scope i clock) q sent_on
    unfolding sent_on before_send publish install_handle
    sent_on-Handed = (
      asked-Asked,
      before_send-lookup store_id scope i clock q,
      λ j. lookup-insert i j (fresh_handle store_id scope i clock q) q.handles,
      λ s. contains-cons store_id s q.inflight,
      λ a. refl,
      λ a. refl,
      refl,
    )

    hand_over-room :
        q.closed ≡ false
        → length q.channel < queue_capacity
        → hand_over
            (asked store_id scope i clock)
            (fresh_job store_id scope i clock q)
            clock
            (before_send store_id scope i clock q)
          ≡ answer (asked store_id scope i clock) sent_on
    unfolding hand_over enqueue sent_on before_send publish install_handle
    hand_over-room open_ room =
        let fits : ltb (length q.channel) queue_capacity ≡ true = ground (arith, room) in
        rw (open_, fits, hand_over, enqueue) refl

    open-Effect :
        q.closed ≡ false
        → length q.channel < queue_capacity
        → let call = submit store_id scope i clock q in
          (job : IndexJob) × (call ≡ accepted job (queue_after call q))
          × Handed store_id scope i clock job q (queue_after call q)
    unfolding sent_on
    open-Effect open_ room =
        let mine : lookup i sent_on.registry ≡ some (asked store_id scope i clock) =
          ground (arith, text_eq_refl i, before_send-lookup store_id scope i clock q i) in
        let call : submit store_id scope i clock q
            ≡ accepted (asked store_id scope i clock) sent_on =
          submit-free store_id scope i clock q free
          ∙ (hand_over-room open_ room
              ∙ asked-answer store_id scope i clock sent_on (asked store_id scope i clock) mine) in
        subst
          (λ c.
            (job : IndexJob) × (c ≡ accepted job (queue_after c q))
            × Handed store_id scope i clock job q (queue_after c q))
          (sym call) ((asked store_id scope i clock), refl, sent_on-Handed)

  submit-Effect :
      (q : JobQueue)
      → IsReady i clock q
      → WellKeyed q.registry
      → let call = submit store_id scope i clock q in
        Effect store_id scope i clock
          (contains store_id q.inflight)
          q.closed
          q
          call
          (queue_after call q)
  submit-Effect q ready keyed = of_flags (contains store_id q.inflight) q.closed refl refl
    where
      of_flags :
          (taken gone : Bool)
          → contains store_id q.inflight ≡ taken
          → q.closed ≡ gone
          → let call = submit store_id scope i clock q in
            Effect store_id scope i clock taken gone q call (queue_after call q)
      of_flags true gone e h = (
        submit-taken store_id scope i clock q e,
        ap (λ call. queue_after call q) (submit-taken store_id scope i clock q e),
      )
      of_flags false true e h = gone-Effect store_id scope i clock q e h keyed
      of_flags false false e h = open-Effect q e h (ground (arith, ready, h))

  -- The sections of a submission under a new id, run with nobody in between, leave the queue as
  -- `submit` does. The channel has room or is closed, so `submit` does not wait, and the registry is
  -- keyed by job ids. If the store is in flight, the call is refused and nothing has changed. If not,
  -- and the receiver is there, the call answers a pending job, which is the one new entry; its handle
  -- with an untriggered token and an empty channel is the one new handle, its store is in flight too,
  -- and it stands last in the queue to the workers. If the receiver is gone, the call answers the
  -- job's entry, which is failed; no handle of it is left, the same stores are in flight as before,
  -- nothing is queued, its channel carries one terminal event, and an entry of another job is as it
  -- was, or it was terminal and is evicted.
  pub run-Effect :
      (w : World)
      → w.phase i ≡ absent
      → IsReady i clock w.queue
      → WellKeyed w.queue.registry
      → Effect store_id scope i clock
          (contains store_id w.queue.inflight)
          w.queue.closed
          w.queue
          (submit store_id scope i clock w.queue)
          (run (submission i clock store_id scope) w).queue
  run-Effect w new ready keyed =
      subst
        (Effect store_id scope i clock (contains store_id w.queue.inflight) w.queue.closed w.queue
          (submit store_id scope i clock w.queue))
        (sym (run-submit i clock store_id scope w new ready)) (submit-Effect w.queue ready keyed)
