-- ===== src/Server/JobQueue/World/Submission.antt =====
-- The sections of one submission, one after the other, are `submit`.
use mathlib.Core.Path.{subst}
use localdb.Prelude.{
  ◌≡◌, ◌≢◌, ◌<◌, ◌⊎◌, length, refl, sym, ◌∙◌, ap, inl, inr, true, Option, List, [], ◌∷◌, Text,
  arith, Bool-cases, contains, All,
}
use localdb.Core.Jobs.{IndexJob, IndexJobScope, create_index_job}
use localdb.Server.JobQueue.State.{JobQueue, QueuedJob, Clock, queue_capacity}
use localdb.Server.JobQueue.Submit.{
  Sending, sent_to_workers, receiver_gone, waiting, reserve, install_handle, publish, enqueue,
  release, record_refusal, close_refusal, Submission, rejected, accepted, blocked, abandon,
  hand_over, admit, submit,
}
use localdb.Server.JobQueue.World.Frame.{at_move}
use localdb.Server.JobQueue.World.{
  absent, reserved, installed, published, refused, unguarded, refusal_recorded, queued, World, move,
  Action, reserves, installs, publishes, sends, withdraws, records_refusal, closes_refusal,
  reserves_at, installs_at, publishes_at, sends_at, withdraws_at, records_refusal_at,
  closes_refusal_at, queued_job, step, run,
}

-- What a submission leaves of the queue.
abbrev pub queue_after : Submission → JobQueue → JobQueue
queue_after (rejected e) q = q
queue_after (accepted job q') q = q'
queue_after blocked q = q

-- Actions whose turn has not come.
run_idle :
    (schedule : List Action) (w : World) → All (λ a. step a w ≡ w) schedule → run schedule w ≡ w
unfolding run
run_idle [] w h = refl
run_idle (a ∷ schedule) w h = ap (run schedule) h.0 ∙ run_idle schedule w h.1

module _ (i : Text) (clock : Clock) where
  abbrev pub failing : List Action
  failing = withdraws i ∷ records_refusal i clock ∷ closes_refusal i ∷ []

  queued_stays : (x : QueuedJob) (w : World) → w.phase i ≡ queued x → run failing w ≡ w
  unfolding step withdraws_at records_refusal_at closes_refusal_at
  queued_stays x w e = run_idle failing w (
    ap (λ p. withdraws_at p i w) e,
    (ap (λ p. records_refusal_at p i clock w) e, (ap (λ p. closes_refusal_at p i w) e, tt)),
  )

  closing :
      (x : QueuedJob) (snapshot : Option IndexJob) (w : World)
      → w.phase i ≡ refusal_recorded x snapshot
      → (run (closes_refusal i ∷ []) w).queue ≡ close_refusal i x.sink snapshot w.queue
  unfolding run step closes_refusal_at
  closing x snapshot w e =
      subst (λ p. (closes_refusal_at p i w).queue ≡ close_refusal i x.sink snapshot w.queue) (sym e)
        refl

  recording :
      (x : QueuedJob) (w : World)
      → w.phase i ≡ unguarded x
      → let (q, snapshot) = record_refusal i clock w.queue in
        (run (records_refusal i clock ∷ closes_refusal i ∷ []) w).queue
        ≡ close_refusal i x.sink snapshot q
  unfolding run step records_refusal_at
  recording x w e =
      let (q, snapshot) = record_refusal i clock w.queue in
      subst
        (λ p.
          (run (closes_refusal i ∷ []) (records_refusal_at p i clock w)).queue
          ≡ close_refusal i x.sink snapshot q)
        (sym e)
        (closing x snapshot (move i (refusal_recorded x snapshot) q w)
          (at_move i (refusal_recorded x snapshot) q w))

  withdrawing :
      (x : QueuedJob) (w : World)
      → w.phase i ≡ refused x
      → let (q, snapshot) = record_refusal i clock (release x.store_id w.queue) in
        (run failing w).queue ≡ close_refusal i x.sink snapshot q
  unfolding run step withdraws_at
  withdrawing x w e =
      let (q, snapshot) = record_refusal i clock (release x.store_id w.queue) in
      subst
        (λ p.
          (run (records_refusal i clock ∷ closes_refusal i ∷ []) (withdraws_at p i w)).queue
          ≡ close_refusal i x.sink snapshot q)
        (sym e)
        (recording x (move i (unguarded x) (release x.store_id w.queue) w)
          (at_move i (unguarded x) (release x.store_id w.queue) w))

  sending :
      (x : QueuedJob) (job : IndexJob) (q₀ : JobQueue) (w : World) (s : Sending)
      → w.phase i ≡ published x
      → job.id ≡ i
      → enqueue x w.queue ≡ s
      → s ≢ waiting
      → (run (sends i ∷ failing) w).queue ≡ queue_after (hand_over job x clock w.queue) q₀
  unfolding run step sends_at hand_over abandon
  sending x job q₀ w (sent_to_workers q) e m h no_wait =
      subst
        (λ p. (run failing (sends_at p i w)).queue ≡ queue_after (hand_over job x clock w.queue) q₀)
        (sym e)
        (rw (h, sends_at, hand_over)
          (ap (λ v. v.queue) (queued_stays x (move i (queued x) q w) (at_move i (queued x) q w))))
  sending x job q₀ w receiver_gone e m h no_wait =
      subst
        (λ p. (run failing (sends_at p i w)).queue ≡ queue_after (hand_over job x clock w.queue) q₀)
        (sym e)
        (rw (h, sends_at, hand_over)
          (subst
            (λ j. (run failing (move i (refused x) w.queue w)).queue ≡ (
              let (q, snapshot) = record_refusal j clock (release x.store_id w.queue) in
              close_refusal j x.sink snapshot q))
            (sym m)
            (withdrawing x (move i (refused x) w.queue w) (at_move i (refused x) w.queue w))))
  sending x job q₀ w waiting e m h no_wait = absurd (no_wait refl)

  publishing :
      (x : QueuedJob) (job : IndexJob) (q₀ : JobQueue) (w : World)
      → w.phase i ≡ installed job x
      → job.id ≡ i
      → enqueue x (publish job w.queue) ≢ waiting
      → (run (publishes i ∷ sends i ∷ failing) w).queue
        ≡ queue_after (hand_over job x clock (publish job w.queue)) q₀
  unfolding run step publishes_at
  publishing x job q₀ w e m no_wait =
      subst
        (λ p.
          (run (sends i ∷ failing) (publishes_at p i w)).queue
          ≡ queue_after (hand_over job x clock (publish job w.queue)) q₀)
        (sym e)
        (sending x job q₀ (move i (published x) (publish job w.queue) w) _
          (at_move i (published x) (publish job w.queue) w) m refl no_wait)

  -- The receiver is gone, or the channel has room.
  abbrev pub IsReady : JobQueue → Type 0
  IsReady q = (q.closed ≡ true) ⊎ (length q.channel < queue_capacity)

  not_waiting :
      (x : QueuedJob) (job : IndexJob) (q : JobQueue)
      → IsReady q
      → enqueue x (publish job (install_handle i q).0) ≢ waiting
  unfolding enqueue publish install_handle
  not_waiting x job q h = ground arith

  module _ (store_id : Text) (scope : IndexJobScope) where
    installing :
        (q₀ : JobQueue) (w : World)
        → w.phase i ≡ reserved store_id
        → IsReady w.queue
        → (run (installs i scope clock.now ∷ publishes i ∷ sends i ∷ failing) w).queue
          ≡ queue_after (admit (create_index_job i store_id scope clock.now) clock w.queue) q₀
    unfolding run step installs_at admit create_index_job
    installing q₀ w e ready =
        let (q, h) = install_handle i w.queue in
        let job = create_index_job i store_id scope clock.now in
        let x = queued_job i store_id h in
        subst
          (λ p.
            (run (publishes i ∷ sends i ∷ failing) (installs_at p i scope clock.now w)).queue
            ≡ queue_after (admit job clock w.queue) q₀)
          (sym e)
          (publishing x job q₀ (move i (installed job x) q w) (at_move i (installed job x) q w) refl
            (not_waiting x job w.queue ready))

    abbrev pub submission : List Action
    submission = reserves i store_id ∷ installs i scope clock.now ∷ publishes i ∷ sends i ∷ failing

    refused_stays :
        (w : World)
        → w.phase i ≡ absent
        → run (installs i scope clock.now ∷ publishes i ∷ sends i ∷ failing) w ≡ w
    unfolding step installs_at publishes_at sends_at withdraws_at records_refusal_at
        closes_refusal_at
    refused_stays w e = run_idle (installs i scope clock.now ∷ publishes i ∷ sends i ∷ failing) w (
      ap (λ p. installs_at p i scope clock.now w) e,
      (
        ap (λ p. publishes_at p i w) e,
        (
          ap (λ p. sends_at p i w) e,
          (
            ap (λ p. withdraws_at p i w) e,
            (ap (λ p. records_refusal_at p i clock w) e, (ap (λ p. closes_refusal_at p i w) e, tt)),
          ),
        ),
      ),
    )

    -- The sections of a submission under a new id, run with nobody in between, leave the queue as
    -- `submit` does, be the store reserved already, the job handed over, or the receiver gone. The
    -- channel has room or is closed: `submit` does not wait.
    pub run-submit :
        (w : World)
        → w.phase i ≡ absent
        → IsReady w.queue
        → (run submission w).queue ≡ queue_after (submit store_id scope i clock w.queue) w.queue
    unfolding run step reserves_at submit reserve
    run-submit w e ready =
        subst
          (λ p.
            (run (installs i scope clock.now ∷ publishes i ∷ sends i ∷ failing)
              (reserves_at p i store_id w)).queue
            ≡ queue_after (submit store_id scope i clock w.queue) w.queue)
          (sym e)
          (elim (Bool-cases (contains store_id w.queue.inflight)) [
            | inl taken ↦
                rw (taken, reserves_at, submit, reserve) (ap (λ v. v.queue) (refused_stays w e))
            | inr free ↦
                let q = record w.queue { inflight = store_id ∷ w.queue.inflight } in
                rw (free, reserves_at, submit, reserve)
                  (installing w.queue (move i (reserved store_id) q w)
                    (at_move i (reserved store_id) q w) ready)
          ])
