-- ===== src/Server/JobQueue/Evict/Writes.antt =====
-- A terminal write with its eviction: the written entry stays, and the others keep theirs or were
-- candidates.
use localdb.Prelude.{
  ◌≡◌, ◌⊎◌, inl, inr, true, false, Option, none, some, List, Text, text_eq, text_eq_iff,
  text_eq_refl, lookup, lookup-insert, if◌then◌else◌, arith, Option-cases,
}
use localdb.Core.Jobs.{IndexJob}
use localdb.Server.JobQueue.State.{max_terminal_jobs}
use localdb.Server.JobQueue.Evict.Survivors.{
  WellKeyed, satisfies, insert-WellKeyed, evict-WellKeyed, lookup-evict, lookup-id,
  lookup-protected,
}
use localdb.Server.JobQueue.Evict.{terminal_job, update_entry, evict_oldest_terminal_jobs_over_cap}

abbrev pub changed : (IndexJob → IndexJob) → Option IndexJob → Option IndexJob
changed change none = none
changed change (some job) = some (change job)

-- What one job's section may do to another job's entry: nothing, or its eviction.
abbrev pub Kept : Option IndexJob → Option IndexJob → Type 0
Kept e e' = (e' ≡ e) ⊎ ((e' ≡ none) × (satisfies terminal_job e ≡ true))

module _ (change : IndexJob → IndexJob) (id : Text) (r : List (Text × IndexJob)) where
  pub lookup-update_entry :
      (j : Text)
      → lookup j (update_entry change id r)
        ≡ (if text_eq id j then changed change (lookup j r) else lookup j r)
  unfolding update_entry
  lookup-update_entry j = elim (Option-cases (lookup id r)) [
    | inl e ↦ rw (e, update_entry) (ground (arith, text_eq_iff id j))
    | inr (job, e) ↦
        rw (e, update_entry) (ground (arith, text_eq_iff id j, lookup-insert id j (change job) r))
  ]

  pub update_entry-WellKeyed :
      ((job : IndexJob) → (change job).id ≡ job.id)
      → WellKeyed r
      → WellKeyed (update_entry change id r)
  unfolding update_entry
  update_entry-WellKeyed same w = elim (Option-cases (lookup id r)) [
    | inl e ↦ rw (e, update_entry) w
    | inr (job, e) ↦
        rw (e, update_entry)
          (insert-WellKeyed id (change job) r (ground (arith, same job, lookup-id id r w job)) w)
  ]

  module _ (cutoff : Text) (same : (job : IndexJob) → (change job).id ≡ job.id)
      (w : WellKeyed r) where
    abbrev written : List (Text × IndexJob)
    written =
        evict_oldest_terminal_jobs_over_cap (update_entry change id r) max_terminal_jobs id cutoff

    pub written-WellKeyed : WellKeyed written
    written-WellKeyed =
        evict-WellKeyed (update_entry change id r) max_terminal_jobs id cutoff
          (update_entry-WellKeyed same w)

    pub lookup-written_other :
        (j : Text) → text_eq id j ≡ false → Kept (lookup j r) (lookup j written)
    lookup-written_other j other = ground (
      arith,
      lookup-update_entry j,
      lookup-evict j (update_entry change id r) max_terminal_jobs id cutoff
          (update_entry-WellKeyed same w),
    )

    -- The job in transition is protected, so the snapshot is its changed entry.
    pub lookup-written_self : lookup id written ≡ changed change (lookup id r)
    lookup-written_self = ground (
      arith,
      lookup-update_entry id,
      text_eq_refl id,
      lookup-evict id (update_entry change id r) max_terminal_jobs id cutoff
          (update_entry-WellKeyed same w),
      lookup-protected id cutoff (update_entry change id r) (update_entry-WellKeyed same w),
    )
