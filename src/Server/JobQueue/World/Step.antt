-- ===== src/Server/JobQueue/World/Step.antt =====
-- One owner's step and what it leaves of the invariant to show.
use localdb.Prelude.{
  ℕ, ◌≤◌, ◌≡◌, refl, sym, true, inl, inr, false, Option, none, some, List, Text, text_eq,
  text_eq_iff, text_eq_refl, lookup, remove, lookup-remove, Bool-cases, Option-cases, arith,
}
use mathlib.Core.Path.{subst}
use localdb.Core.Jobs.{IndexJob, is_terminal}
use localdb.Server.JobQueue.State.{JobQueue, JobEvent, terminal, send_event, teardown}
use localdb.Server.JobQueue.Submit.{close_refusal}
use localdb.Server.JobQueue.Evict.{write_terminal}
use localdb.Server.JobQueue.Evict.Survivors.{WellKeyed}
use localdb.Server.JobQueue.Evict.Writes.{
  Kept, changed, written-WellKeyed, lookup-written_self, lookup-written_other,
}
use localdb.Server.JobQueue.World.Invariant.{
  Good, Good-Kept, IsSettled, IsWaiting, Inv, reservation,
}
use localdb.Server.JobQueue.World.Frame.{is_queued, set_phase, IsWaiting-set}
use localdb.Server.JobQueue.World.Guards.{Guards, Guards-keep}
use localdb.Server.JobQueue.World.{Phase, World, move}

-- An owner's step keeps the invariant if what it leaves behind does, and it changes no other job's
-- entries but by eviction.
pub move-Inv :
    (w : World) (i : Text) (p : Phase) (q : JobQueue)
    → Inv w
    → WellKeyed q.registry
    → Good i p (lookup i q.registry) (lookup i q.handles) q.next_address
    → ((j : Text)
        → text_eq i j ≡ false
        → Kept (lookup j w.queue.registry) (lookup j q.registry)
          × (lookup j q.handles ≡ lookup j w.queue.handles))
    → w.queue.next_address ≤ q.next_address
    → IsWaiting (set_phase i p w.phase) q.channel
    → Guards (set_phase i p w.phase) q.inflight
    → Inv (move i p q w)
move-Inv w i p q v keyed good frame le waiting (guarded, exclusive) = record {
  keyed = keyed;
  each = λ j. elim (Bool-cases (text_eq i j)) [
    | inl mine ↦ rw mine (rw (← (text_eq_iff i j).0 mine) good)
    | inr other ↦
        rw other
          (Good-Kept j (w.phase j) _ _ _ _ _ _ (v.each j) (frame j other).0 (frame j other).1 le)
  ];
  waiting = waiting;
  guarded = guarded;
  exclusive = exclusive;
}

-- A section that makes a terminal write of its own job, and takes the snapshot with it.
pub write-Inv :
    (w : World) (i : Text) (p : Option IndexJob → Phase) (change : IndexJob → IndexJob)
    (cutoff : Text)
    → Inv w
    → ((job : IndexJob) → (change job).id ≡ job.id)
    → ((snapshot : Option IndexJob)
        → Good i
            (p snapshot)
            (changed change (lookup i w.queue.registry))
            (lookup i w.queue.handles)
            w.queue.next_address)
    → is_queued (w.phase i) ≡ false
    → ((snapshot : Option IndexJob) → reservation (p snapshot) ≡ reservation (w.phase i))
    → let (q, snapshot) = write_terminal change i cutoff w.queue in Inv (move i (p snapshot) q w)
unfolding write_terminal
write-Inv w i p change cutoff v same good waits keeps =
    move-Inv w i (p snapshot) (write_terminal change i cutoff w.queue).0 v
      (written-WellKeyed change i w.queue.registry cutoff same v.keyed)
      (rw (lookup-written_self change i w.queue.registry cutoff same v.keyed)
        (good (changed change (lookup i w.queue.registry))))
      (λ j other.
        (lookup-written_other change i w.queue.registry cutoff same v.keyed j other, refl))
      (omega arith) (IsWaiting-set i (p snapshot) w.phase w.queue.channel waits v.waiting)
      (Guards-keep i (p snapshot) w.phase w.queue.inflight (keeps snapshot)
        (v.guarded, v.exclusive))
  where
    snapshot : Option IndexJob
    snapshot = (write_terminal change i cutoff w.queue).1

-- The same where the section spells its job's id another way.
pub write_as-Inv :
    (w : World) (i k : Text) (p : Option IndexJob → Phase) (change : IndexJob → IndexJob)
    (cutoff : Text)
    → k ≡ i
    → Inv w
    → ((job : IndexJob) → (change job).id ≡ job.id)
    → ((snapshot : Option IndexJob)
        → Good i
            (p snapshot)
            (changed change (lookup i w.queue.registry))
            (lookup i w.queue.handles)
            w.queue.next_address)
    → is_queued (w.phase i) ≡ false
    → ((snapshot : Option IndexJob) → reservation (p snapshot) ≡ reservation (w.phase i))
    → let (q, snapshot) = write_terminal change k cutoff w.queue in Inv (move i (p snapshot) q w)
write_as-Inv w i k p change cutoff e v same good waits keeps =
    subst
      (λ k.
        let (q, snapshot) = write_terminal change k cutoff w.queue in Inv (move i (p snapshot) q w))
      (sym e) (write-Inv w i p change cutoff v same good waits keeps)

pub IsSettled-changed :
    (change : IndexJob → IndexJob) (e : Option IndexJob)
    → ((job : IndexJob) → is_terminal (change job).state ≡ true)
    → IsSettled (changed change e)
IsSettled-changed change none h = tt
IsSettled-changed change (some job) h = h job

-- A teardown changes the handles and what was sent.
pub teardown-shape :
    (i : Text) (snapshot : Option IndexJob) (q : JobQueue)
    → (sent : ℕ → List JobEvent) × (teardown i snapshot q
        ≡ record q { handles = remove i q.handles; sent = sent })
unfolding teardown
teardown-shape i none q = (q.sent, refl)
teardown-shape i (some job) q = elim (Option-cases (lookup i q.handles)) [
  | inl e ↦ (q.sent, rw (e, teardown))
  | inr (h, e) ↦ (send_event h.events (terminal job) q.sent, rw (e, teardown))
]

pub close_refusal-shape :
    (i : Text) (tx : ℕ) (snapshot : Option IndexJob) (q : JobQueue)
    → (sent : ℕ → List JobEvent) × (close_refusal i tx snapshot q
        ≡ record q { handles = remove i q.handles; sent = sent })
unfolding close_refusal
close_refusal-shape i tx none q = (q.sent, refl)
close_refusal-shape i tx (some job) q = (send_event tx (terminal job) q.sent, refl)

pub remove_handle-Inv :
    (w : World) (i : Text) (p : Phase) (q : JobQueue)
    → (sent : ℕ → List JobEvent) × (q
        ≡ record w.queue { handles = remove i w.queue.handles; sent = sent })
    → Inv w
    → Good i p (lookup i w.queue.registry) none w.queue.next_address
    → is_queued (w.phase i) ≡ false
    → reservation p ≡ reservation (w.phase i)
    → Inv (move i p q w)
remove_handle-Inv w i p q (sent, shape) v good waits keeps = rw shape (
    move-Inv w i p (record w.queue { handles = remove i w.queue.handles; sent = sent }) v v.keyed
      (rw (lookup-remove i i w.queue.handles) (rw (text_eq_refl i) good))
      (λ j other. (inl refl, ground (arith, lookup-remove i j w.queue.handles))) (omega arith)
      (IsWaiting-set i p w.phase w.queue.channel waits v.waiting)
      (Guards-keep i p w.phase w.queue.inflight keeps (v.guarded, v.exclusive)))
