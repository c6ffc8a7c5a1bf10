-- ===== src/Server/JobQueue/World/Submitting.antt =====
-- The sections of `submit` keep the invariant.
use localdb.Prelude.{
  ◌≡◌, ◌⊎◌, refl, inl, inr, false, [], ◌∷◌, ◌++◌, Text, text_eq_iff, lookup, lookup-insert,
  contains, Bool-cases, arith, codes,
}
use localdb.Core.Jobs.{IndexJobScope, create_index_job, fail_index_job}
use localdb.Server.JobQueue.State.{JobQueue, QueuedJob, Clock}
use localdb.Server.JobQueue.Evict.Survivors.{insert-WellKeyed}
use localdb.Server.JobQueue.Submit.{
  sent_to_workers, receiver_gone, waiting, reserve, install_handle, publish, enqueue, release,
  record_refusal,
}
use localdb.Server.JobQueue.World.Invariant.{Good, GoodAt, Inv, reservation}
use localdb.Server.JobQueue.World.Frame.{is_queued, IsWaiting-set, IsWaiting-send}
use localdb.Server.JobQueue.World.Guards.{Guards-keep, Guards-take, Guards-release}
use localdb.Server.JobQueue.World.Step.{move-Inv, write-Inv, remove_handle-Inv, close_refusal-shape}
use localdb.Server.JobQueue.World.{
  Phase, absent, reserved, installed, published, refused, unguarded, refusal_recorded, queued, over,
  World, reserves_at, installs_at, publishes_at, sends_at, withdraws_at, records_refusal_at,
  closes_refusal_at, queued_job, move,
}

pub reserves-Inv :
    (p : Phase) (i s : Text) (w : World) → w.phase i ≡ p → Inv w → Inv (reserves_at p i s w)
unfolding reserves_at reserve
reserves-Inv absent i s w e v = elim (Bool-cases (contains s w.queue.inflight)) [
  | inl taken ↦ rw (taken, reserves_at, reserve) v
  | inr free ↦
      rw (free, reserves_at, reserve)
        (move-Inv w i (reserved s) (record w.queue { inflight = s ∷ w.queue.inflight }) v v.keyed
          (ground (arith, v.each i)) (λ j other. (inl refl, refl)) (omega arith)
          (IsWaiting-set i (reserved s) w.phase w.queue.channel (ground arith) v.waiting)
          (Guards-take i (reserved s) w.phase w.queue.inflight s free refl
            (v.guarded, v.exclusive)))
]
reserves-Inv _ i s w e v = v

pub installs-Inv :
    (p : Phase) (i : Text) (scope : IndexJobScope) (now : Text) (w : World)
    → w.phase i ≡ p
    → Inv w
    → Inv (installs_at p i scope now w)
unfolding installs_at install_handle create_index_job
installs-Inv (reserved s) i scope now w e v =
    move-Inv w i
      (installed (create_index_job i s scope now) (
        queued_job i s
          (record { events = w.queue.next_address; cancel_token = w.queue.next_address })))
      (install_handle i w.queue).0 v v.keyed
      (ground (
        arith,
        v.each i,
        lookup-insert i i
            (record { events = w.queue.next_address; cancel_token = w.queue.next_address })
            w.queue.handles,
        text_eq_iff i i,
      ))
      (λ j other. (
        inl refl,
        ground (
          arith,
          lookup-insert i j
              (record { events = w.queue.next_address; cancel_token = w.queue.next_address })
              w.queue.handles,
        ),
      ))
      (omega arith) (IsWaiting-set i _ w.phase w.queue.channel (ground arith) v.waiting)
      (Guards-keep i _ w.phase w.queue.inflight (ground arith) (v.guarded, v.exclusive))
installs-Inv _ i scope now w e v = v

pub publishes-Inv :
    (p : Phase) (i : Text) (w : World) → w.phase i ≡ p → Inv w → Inv (publishes_at p i w)
unfolding publishes_at publish
publishes-Inv (installed job x) i w e v =
    move-Inv w i (published x) (publish job w.queue) v
      (insert-WellKeyed job.id job w.queue.registry refl v.keyed)
      (ground (arith, v.each i, lookup-insert job.id i job w.queue.registry, text_eq_iff job.id i))
      (λ j other. ground (arith, v.each i, lookup-insert job.id j job w.queue.registry))
      (omega arith) (IsWaiting-set i (published x) w.phase w.queue.channel (ground arith) v.waiting)
      (Guards-keep i (published x) w.phase w.queue.inflight (ground arith) (v.guarded, v.exclusive))
publishes-Inv _ i w e v = v

pub enqueue-cases :
    (x : QueuedJob) (q : JobQueue)
    → (enqueue x q ≡ sent_to_workers (record q { channel = q.channel ++ x ∷ [] }))
      ⊎ ((enqueue x q ≡ receiver_gone) ⊎ (enqueue x q ≡ waiting))
unfolding enqueue
enqueue-cases x q = ground arith

pub sends-Inv : (p : Phase) (i : Text) (w : World) → w.phase i ≡ p → Inv w → Inv (sends_at p i w)
unfolding sends_at
sends-Inv (published x) i w e v = elim (enqueue-cases x w.queue) [
  | inl sent ↦
      rw (sent, sends_at)
        (move-Inv w i (queued x) (record w.queue { channel = w.queue.channel ++ x ∷ [] }) v v.keyed
          (ground (arith, good)) (λ j other. (inl refl, refl)) (omega arith)
          (IsWaiting-send i x w.phase w.queue.channel mine (ground arith) v.waiting)
          (Guards-keep i (queued x) w.phase w.queue.inflight (ground arith)
            (v.guarded, v.exclusive)))
  | inr (inl gone) ↦
      rw (gone, sends_at) (stay (refused x) (ground (arith, good)) (ground arith) (ground arith))
  | inr (inr full) ↦ rw (full, sends_at) v
]
  where
    good : GoodAt w i
    good = v.each i

    mine : x.id ≡ i
    mine = ground (arith, good)

    stay :
        (p : Phase)
        → Good i p (lookup i w.queue.registry) (lookup i w.queue.handles) w.queue.next_address
        → is_queued (w.phase i) ≡ false
        → reservation p ≡ reservation (w.phase i)
        → Inv (move i p w.queue w)
    stay p g n r =
        move-Inv w i p w.queue v v.keyed g (λ j other. (inl refl, refl)) (omega arith)
          (IsWaiting-set i p w.phase w.queue.channel n v.waiting)
          (Guards-keep i p w.phase w.queue.inflight r (v.guarded, v.exclusive))
sends-Inv _ i w e v = v

pub withdraws-Inv :
    (p : Phase) (i : Text) (w : World) → w.phase i ≡ p → Inv w → Inv (withdraws_at p i w)
unfolding withdraws_at release
withdraws-Inv (refused x) i w e v =
    move-Inv w i (unguarded x) (release x.store_id w.queue) v v.keyed (ground (arith, v.each i))
      (λ j other. (inl refl, refl)) (omega arith)
      (IsWaiting-set i (unguarded x) w.phase w.queue.channel (ground arith) v.waiting)
      (Guards-release i (unguarded x) w.phase w.queue.inflight x.store_id (ground arith) refl
        (v.guarded, v.exclusive))
withdraws-Inv _ i w e v = v

pub records_refusal-Inv :
    (p : Phase) (i : Text) (clock : Clock) (w : World)
    → w.phase i ≡ p
    → Inv w
    → Inv (records_refusal_at p i clock w)
unfolding records_refusal_at record_refusal fail_index_job
records_refusal-Inv (unguarded x) i clock w e v =
    write-Inv w i (refusal_recorded x)
      (λ job. fail_index_job job (codes "job queue is full or closed") clock.now) clock.cutoff v
      (λ job. refl) (λ snapshot. ground (arith, v.each i)) (ground arith) (λ snapshot. ground arith)
records_refusal-Inv _ i clock w e v = v

pub closes_refusal-Inv :
    (p : Phase) (i : Text) (w : World) → w.phase i ≡ p → Inv w → Inv (closes_refusal_at p i w)
unfolding closes_refusal_at
closes_refusal-Inv (refusal_recorded x snapshot) i w e v =
    remove_handle-Inv w i over _ (close_refusal-shape i x.sink snapshot w.queue) v
      (ground (arith, v.each i)) (ground arith) (ground arith)
closes_refusal-Inv _ i w e v = v
