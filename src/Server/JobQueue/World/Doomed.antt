-- ===== src/Server/JobQueue/World/Doomed.antt =====
-- What a triggered token does to a job that has still to be started, section by section.
use mathlib.Core.Path.{subst, sym}
use localdb.Prelude.{
  ℕ, ◌<◌, ◌≡◌, Bool, true, List, [], ◌∷◌, ◌++◌, Text, text_eq, text_eq_iff, Bool-cases, inl, inr,
  arith, lookup, contains, remove,
}
use localdb.Core.Errors.{job_cancelled}
use localdb.Core.Jobs.{IndexJobScope, start_index_job, fail_index_job_with_error}
use localdb.Core.Progress.{ProgressEvent}
use localdb.Server.JobQueue.State.{JobQueue, JobEvent, QueuedJob, Clock, report_progress}
use localdb.Server.JobQueue.Evict.{write_terminal, update_entry}
use localdb.Server.JobQueue.Submit.{reserve, install_handle, publish, release, record_refusal}
use localdb.Server.JobQueue.Cancel.{cancel, trigger_handle}
use localdb.Server.JobQueue.Worker.{Race, outcome_of, begin_job, record_outcome}
use localdb.Server.JobQueue.World.Invariant.{Good, Inv, IsWaiting}
use localdb.Server.JobQueue.World.Step.{teardown-shape, close_refusal-shape}
use localdb.Server.JobQueue.World.Submitting.{enqueue-cases}
use localdb.Server.JobQueue.World.Working.{receive-eq, receive-eq_none}
use localdb.Server.JobQueue.World.{
  Phase, absent, reserved, installed, published, refused, unguarded, refusal_recorded, queued,
  received, started, ended, torn_down, over, World, move, is_ready, reserves_at, installs_at,
  publishes_at, sends_at, withdraws_at, records_refusal_at, closes_refusal_at, receives_step,
  begins_at, reports_at, ends_at, tears_down_at, releases_at,
}

-- The owner has still to read a token that is triggered, or is past the place where it starts.
abbrev pub IsDoomed : Phase → (ℕ → Bool) → Type 0
IsDoomed absent t = ⊥
IsDoomed (reserved s) t = ⊥
IsDoomed (installed job x) t = t x.cancel_token ≡ true
IsDoomed (published x) t = t x.cancel_token ≡ true
IsDoomed (refused x) t = Unit
IsDoomed (unguarded x) t = Unit
IsDoomed (refusal_recorded x snapshot) t = Unit
IsDoomed (queued x) t = t x.cancel_token ≡ true
IsDoomed (received x) t = t x.cancel_token ≡ true
IsDoomed (started x) t = ⊥
IsDoomed (ended x snapshot) t = Unit
IsDoomed (torn_down x) t = Unit
IsDoomed over t = Unit

abbrev pub Doomed : World → Text → Type 0
Doomed w i = IsDoomed (w.phase i) w.queue.tokens

-- A section hands out fresh tokens at most: those in use stay triggered.
abbrev pub TokensKept : JobQueue → JobQueue → Type 0
TokensKept q q' = (a : ℕ) → a < q.next_address → q.tokens a ≡ true → q'.tokens a ≡ true

pub IsDoomed-kept :
    (i : Text) (p : Phase) (q q' : JobQueue)
    → Good i p (lookup i q.registry) (lookup i q.handles) q.next_address
    → TokensKept q q'
    → IsDoomed p q.tokens
    → IsDoomed p q'.tokens
IsDoomed-kept i (installed job x) q q' g k d = k x.cancel_token (ground arith) d
IsDoomed-kept i (published x) q q' g k d = k x.cancel_token (ground arith) d
IsDoomed-kept i (queued x) q q' g k d = k x.cancel_token (ground arith) d
IsDoomed-kept i (received x) q q' g k d = k x.cancel_token (ground arith) d
IsDoomed-kept i p q q' g k d = d

pub cancel-tokens :
    (k : Text) (q : JobQueue) (a : ℕ)
    → a < q.next_address
    → q.tokens a ≡ true
    → (cancel k q).0.tokens a ≡ true
unfolding cancel trigger_handle
cancel-tokens k q a n h = ground arith

module _ (w : World) (i : Text) (v : Inv w) (d : Doomed w i) where
  pub move-Doomed :
      (k : Text) (p : Phase) (q : JobQueue)
      → TokensKept w.queue q
      → (k ≡ i → IsDoomed p q.tokens)
      → Doomed (move k p q w) i
  move-Doomed k p q kept mine = elim (Bool-cases (text_eq k i)) [
    | inl hit ↦ rw hit (mine ((text_eq_iff k i).0 hit))
    | inr miss ↦ rw miss (IsDoomed-kept i (w.phase i) w.queue q (v.each i) kept d)
  ]

  -- What the doom says of the phase that a section found.
  here : (k : Text) (p : Phase) → w.phase k ≡ p → k ≡ i → IsDoomed p w.queue.tokens
  here k p e m =
      subst (λ p. IsDoomed p w.queue.tokens) e
        (subst (λ k. IsDoomed (w.phase k) w.queue.tokens) (sym m) d)

  pub reserves-Doomed : (p : Phase) (k s : Text) → w.phase k ≡ p → Doomed (reserves_at p k s w) i
  unfolding reserves_at reserve
  reserves-Doomed absent k s e = elim (Bool-cases (contains s w.queue.inflight)) [
    | inl taken ↦ rw (taken, reserves_at, reserve) d
    | inr free ↦
        rw (free, reserves_at, reserve)
          (move-Doomed k (reserved s) (record w.queue { inflight = s ∷ w.queue.inflight })
            (λ a n t. t) (here k absent e))
  ]
  reserves-Doomed _ k s e = d

  pub installs-Doomed :
      (p : Phase) (k : Text) (scope : IndexJobScope) (now : Text)
      → w.phase k ≡ p
      → Doomed (installs_at p k scope now w) i
  unfolding installs_at install_handle
  installs-Doomed (reserved s) k scope now e =
      move-Doomed k _ (install_handle k w.queue).0 (λ a n t. ground arith)
        (λ m. absurd (here k (reserved s) e m))
  installs-Doomed _ k scope now e = d

  pub publishes-Doomed : (p : Phase) (k : Text) → w.phase k ≡ p → Doomed (publishes_at p k w) i
  unfolding publishes_at publish
  publishes-Doomed (installed job x) k e =
      move-Doomed k (published x) (publish job w.queue) (λ a n t. t) (here k (installed job x) e)
  publishes-Doomed _ k e = d

  pub sends-Doomed : (p : Phase) (k : Text) → w.phase k ≡ p → Doomed (sends_at p k w) i
  unfolding sends_at
  sends-Doomed (published x) k e = elim (enqueue-cases x w.queue) [
    | inl sent ↦
        rw (sent, sends_at)
          (move-Doomed k (queued x) (record w.queue { channel = w.queue.channel ++ x ∷ [] })
            (λ a n t. t) (here k (published x) e))
    | inr (inl gone) ↦
        rw (gone, sends_at) (move-Doomed k (refused x) w.queue (λ a n t. t) (λ m. tt))
    | inr (inr full) ↦ rw (full, sends_at) d
  ]
  sends-Doomed _ k e = d

  pub withdraws-Doomed : (p : Phase) (k : Text) → w.phase k ≡ p → Doomed (withdraws_at p k w) i
  unfolding withdraws_at release
  withdraws-Doomed (refused x) k e =
      move-Doomed k (unguarded x) (release x.store_id w.queue) (λ a n t. t) (λ m. tt)
  withdraws-Doomed _ k e = d

  pub records_refusal-Doomed :
      (p : Phase) (k : Text) (clock : Clock)
      → w.phase k ≡ p
      → Doomed (records_refusal_at p k clock w) i
  unfolding records_refusal_at record_refusal write_terminal
  records_refusal-Doomed (unguarded x) k clock e =
      move-Doomed k _ (record_refusal k clock w.queue).0 (λ a n t. t) (λ m. tt)
  records_refusal-Doomed _ k clock e = d

  pub remove_handle-Doomed :
      (k : Text) (p : Phase) (q : JobQueue)
      → (sent : ℕ → List JobEvent) × (q
          ≡ record w.queue { handles = remove k w.queue.handles; sent = sent })
      → ((t : ℕ → Bool) → IsDoomed p t)
      → Doomed (move k p q w) i
  remove_handle-Doomed k p q (sent, shape) safe = rw shape (
      move-Doomed k p (record w.queue { handles = remove k w.queue.handles; sent = sent })
        (λ a n t. t) (λ m. safe w.queue.tokens))

  pub closes_refusal-Doomed :
      (p : Phase) (k : Text) → w.phase k ≡ p → Doomed (closes_refusal_at p k w) i
  unfolding closes_refusal_at
  closes_refusal-Doomed (refusal_recorded x snapshot) k e =
      remove_handle-Doomed k over _ (close_refusal-shape k x.sink snapshot w.queue) (λ t. tt)
  closes_refusal-Doomed _ k e = d

  pub receives_channel-Doomed :
      (xs : List QueuedJob) → w.queue.channel ≡ xs → Doomed (receives_step w) i
  unfolding receives_step
  receives_channel-Doomed [] e = rw (receive-eq_none w.queue e, receives_step) d
  receives_channel-Doomed (x ∷ xs) e =
      rw (receive-eq x xs w.queue e, receives_step)
        (move-Doomed x.id (received x) (record w.queue { channel = xs }) (λ a n t. t)
          (here x.id (queued x) (subst (IsWaiting w.phase) e v.waiting).0))

  pub begins-Doomed :
      (p : Phase) (k : Text) (clock : Clock) → w.phase k ≡ p → Doomed (begins_at p k clock w) i
  unfolding begins_at begin_job write_terminal
  begins-Doomed (received x) k clock e = elim (Bool-cases (w.queue.tokens x.cancel_token)) [
    | inl triggered ↦
        rw (triggered, begins_at, begin_job)
          (move-Doomed k _
            (write_terminal (λ job. fail_index_job_with_error job job_cancelled clock.now) x.id
              clock.cutoff w.queue).0
            (λ a n t. t) (λ m. tt))
    | inr untouched ↦
        rw (untouched, begins_at, begin_job)
          (move-Doomed k (started x)
            (record w.queue {
              registry = update_entry (λ job. start_index_job job clock.now) x.id w.queue.registry;
            })
            (λ a n t. t) (λ m. cc (here k (received x) e m, untouched)))
  ]
  begins-Doomed _ k clock e = d

  pub reports-Doomed : (p : Phase) (event : ProgressEvent) → Doomed (reports_at p event w) i
  unfolding reports_at report_progress
  reports-Doomed (started x) event = d
  reports-Doomed _ event = d

  pub ends-Doomed :
      (p : Phase) (k : Text) (race : Race) (clock : Clock)
      → w.phase k ≡ p
      → Doomed (ends_at p k race clock w) i
  unfolding ends_at record_outcome write_terminal
  ends-Doomed (started x) k race clock e =
      elim (Bool-cases (is_ready race (w.queue.tokens x.cancel_token))) [
        | inl ready ↦
            rw (ready, ends_at)
              (move-Doomed k _ (record_outcome x (outcome_of race) clock w.queue).0 (λ a n t. t)
                (λ m. tt))
        | inr early ↦ rw (early, ends_at) d
      ]
  ends-Doomed _ k race clock e = d

  pub tears_down-Doomed : (p : Phase) (k : Text) → w.phase k ≡ p → Doomed (tears_down_at p k w) i
  unfolding tears_down_at
  tears_down-Doomed (ended x snapshot) k e =
      remove_handle-Doomed k (torn_down x) _ (teardown-shape k snapshot w.queue) (λ t. tt)
  tears_down-Doomed _ k e = d

  pub releases-Doomed : (p : Phase) (k : Text) → w.phase k ≡ p → Doomed (releases_at p k w) i
  unfolding releases_at release
  releases-Doomed (torn_down x) k e =
      move-Doomed k over (release x.store_id w.queue) (λ a n t. t) (λ m. tt)
  releases-Doomed _ k e = d
