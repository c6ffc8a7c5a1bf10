-- ===== src/Server/JobQueue/World/FinalSubmit.antt =====
-- The sections of `submit` leave a recorded outcome.
use mathlib.Core.Path.{subst}
use localdb.Prelude.{
  ◌≡◌, refl, inl, inr, [], ◌∷◌, ◌++◌, Text, Bool-cases, arith, lookup, lookup-insert, contains,
}
use localdb.Core.Jobs.{IndexJob, IndexJobScope, fail_index_job}
use localdb.Server.JobQueue.State.{Clock}
use localdb.Server.JobQueue.Submit.{reserve, install_handle, publish, release, record_refusal}
use localdb.Server.JobQueue.World.Invariant.{Good, Inv}
use localdb.Server.JobQueue.World.Step.{close_refusal-shape}
use localdb.Server.JobQueue.World.Submitting.{enqueue-cases}
use localdb.Server.JobQueue.World.{
  Phase, absent, reserved, installed, published, refused, unguarded, refusal_recorded, queued, over,
  World, reserves_at, installs_at, publishes_at, sends_at, withdraws_at, records_refusal_at,
  closes_refusal_at,
}
use localdb.Server.JobQueue.World.Final.{Final, move-Final, here, write-Final, remove_handle-Final}

module _ (job : IndexJob) (w : World) (i : Text) (v : Inv w) (d : Final job w i) where
  pub reserves-Final : (p : Phase) (k s : Text) → w.phase k ≡ p → Final job (reserves_at p k s w) i
  unfolding reserves_at reserve
  reserves-Final absent k s e = elim (Bool-cases (contains s w.queue.inflight)) [
    | inl taken ↦ rw (taken, reserves_at, reserve) d
    | inr free ↦
        rw (free, reserves_at, reserve)
          (move-Final job w i v d k (reserved s)
            (record w.queue { inflight = s ∷ w.queue.inflight })
            (λ m. absurd (here job w i v d k absent e m)) (λ o. inl refl))
  ]
  reserves-Final _ k s e = d

  pub installs-Final :
      (p : Phase) (k : Text) (scope : IndexJobScope) (now : Text)
      → w.phase k ≡ p
      → Final job (installs_at p k scope now w) i
  unfolding installs_at install_handle
  installs-Final (reserved s) k scope now e =
      move-Final job w i v d k _ (install_handle k w.queue).0
        (λ m. absurd (here job w i v d k (reserved s) e m)) (λ o. inl refl)
  installs-Final _ k scope now e = d

  pub publishes-Final : (p : Phase) (k : Text) → w.phase k ≡ p → Final job (publishes_at p k w) i
  unfolding publishes_at publish
  publishes-Final (installed j x) k e =
      move-Final job w i v d k (published x) (publish j w.queue)
        (λ m. absurd (here job w i v d k (installed j x) e m))
        (λ o. ground (arith, good, lookup-insert j.id i j w.queue.registry))
    where
      good :
          Good k
            (installed j x)
            (lookup k w.queue.registry)
            (lookup k w.queue.handles)
            w.queue.next_address
      good =
          subst
            (λ p.
              Good k p (lookup k w.queue.registry) (lookup k w.queue.handles) w.queue.next_address)
            e (v.each k)
  publishes-Final _ k e = d

  pub sends-Final : (p : Phase) (k : Text) → w.phase k ≡ p → Final job (sends_at p k w) i
  unfolding sends_at
  sends-Final (published x) k e = elim (enqueue-cases x w.queue) [
    | inl sent ↦
        rw (sent, sends_at)
          (move-Final job w i v d k (queued x)
            (record w.queue { channel = w.queue.channel ++ x ∷ [] })
            (λ m. absurd (here job w i v d k (published x) e m)) (λ o. inl refl))
    | inr (inl gone) ↦
        rw (gone, sends_at)
          (move-Final job w i v d k (refused x) w.queue
            (λ m. absurd (here job w i v d k (published x) e m)) (λ o. inl refl))
    | inr (inr full) ↦ rw (full, sends_at) d
  ]
  sends-Final _ k e = d

  pub withdraws-Final : (p : Phase) (k : Text) → w.phase k ≡ p → Final job (withdraws_at p k w) i
  unfolding withdraws_at release
  withdraws-Final (refused x) k e =
      move-Final job w i v d k (unguarded x) (release x.store_id w.queue)
        (λ m. absurd (here job w i v d k (refused x) e m)) (λ o. inl refl)
  withdraws-Final _ k e = d

  pub records_refusal-Final :
      (p : Phase) (k : Text) (clock : Clock)
      → w.phase k ≡ p
      → Final job (records_refusal_at p k clock w) i
  unfolding records_refusal_at record_refusal fail_index_job
  records_refusal-Final (unguarded x) k clock e =
      write-Final job w i v d k k _ _ clock.cutoff refl (λ a. refl)
        (here job w i v d k (unguarded x) e)
  records_refusal-Final _ k clock e = d

  pub closes_refusal-Final :
      (p : Phase) (k : Text) → w.phase k ≡ p → Final job (closes_refusal_at p k w) i
  unfolding closes_refusal_at
  closes_refusal-Final (refusal_recorded x snapshot) k e =
      remove_handle-Final job w i v d k over _ (close_refusal-shape k x.sink snapshot w.queue) tt
  closes_refusal-Final _ k e = d
