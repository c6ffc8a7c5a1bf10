-- ===== src/Server/JobQueue/World/Final.antt =====
-- A recorded outcome stays as it was recorded, section by section.
use mathlib.Core.Path.{subst, sym}
use localdb.Prelude.{
  ℕ, ◌≡◌, refl, ◌⊎◌, inl, inr, true, false, Option, none, some, List, Text, text_eq, text_eq_iff,
  Bool-cases, arith, lookup, remove,
}
use localdb.Core.Jobs.{IndexJob, is_terminal}
use localdb.Server.JobQueue.State.{
  JobQueue, JobEvent, QueuedJob, Clock, report_progress, max_terminal_jobs,
}
use localdb.Server.JobQueue.Evict.{write_terminal}
use localdb.Server.JobQueue.Evict.Writes.{Kept, lookup-written_other}
use localdb.Server.JobQueue.World.Invariant.{Good, Inv}
use localdb.Server.JobQueue.World.{Phase, refusal_recorded, ended, torn_down, over, World, move}

-- The owner is past every write of the entry.
abbrev pub IsPast : Phase → Type 0
IsPast (refusal_recorded x snapshot) = Unit
IsPast (ended x snapshot) = Unit
IsPast (torn_down x) = Unit
IsPast over = Unit
IsPast p = ⊥

abbrev pub Stays : IndexJob → Option IndexJob → Type 0
Stays job e = (e ≡ some job) ⊎ (e ≡ none)

abbrev pub Final : IndexJob → World → Text → Type 0
Final job w i = IsPast (w.phase i) × Stays job (lookup i w.queue.registry)

pub Good-IsPast :
    (i : Text) (p : Phase) (job : IndexJob) (h : Option localdb.Server.JobQueue.State.JobHandle)
    (n : ℕ)
    → Good i p (some job) h n
    → is_terminal job.state ≡ true
    → IsPast p
Good-IsPast i (refusal_recorded x snapshot) job h n g e = tt
Good-IsPast i p job h n g e = ground arith

module _ (job : IndexJob) (w : World) (i : Text) (v : Inv w) (d : Final job w i) where
  pub move-Final :
      (k : Text) (p : Phase) (q : JobQueue)
      → (IsPast (w.phase k) → IsPast p × (q.registry ≡ w.queue.registry))
      → (text_eq k i ≡ false → Kept (lookup i w.queue.registry) (lookup i q.registry))
      → Final job (move k p q w) i
  move-Final k p q mine other = elim (Bool-cases (text_eq k i)) [
    | inl hit ↦
        let m = (text_eq_iff k i).0 hit in
        let (past, same) = mine (subst (λ j. IsPast (w.phase j)) (sym m) d.0) in
        (rw hit past, ground (arith, d.1))
    | inr miss ↦ (rw miss d.0, ground (arith, other miss, d.1))
  ]

  -- What the finality says of a phase that a section found.
  pub here : (k : Text) (p : Phase) → w.phase k ≡ p → IsPast (w.phase k) → IsPast p
  here k p e m = subst IsPast e m

  -- A terminal write under the id `k` by an owner that is not past it.
  pub write-Final :
      (k id : Text) (p : Phase) (change : IndexJob → IndexJob) (cutoff : Text)
      → id ≡ k
      → ((a : IndexJob) → (change a).id ≡ a.id)
      → (IsPast (w.phase k) → ⊥)
      → Final job (move k p (write_terminal change id cutoff w.queue).0 w) i
  unfolding write_terminal
  write-Final k id p change cutoff m same live =
      move-Final k p (write_terminal change id cutoff w.queue).0 (λ past. absurd (live past))
        (λ o.
          ground (arith, m, lookup-written_other change id w.queue.registry cutoff same v.keyed i))

  pub remove_handle-Final :
      (k : Text) (p : Phase) (q : JobQueue)
      → (sent : ℕ → List JobEvent) × (q
          ≡ record w.queue { handles = remove k w.queue.handles; sent = sent })
      → IsPast p
      → Final job (move k p q w) i
  remove_handle-Final k p q (sent, shape) past = rw shape (
      move-Final k p (record w.queue { handles = remove k w.queue.handles; sent = sent })
        (λ m. (past, refl)) (λ o. inl refl))
