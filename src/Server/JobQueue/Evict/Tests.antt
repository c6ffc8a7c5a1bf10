-- ===== src/Server/JobQueue/Evict/Tests.antt =====
-- Concrete evictions.
use localdb.Prelude.{
  ◌≡◌, refl, inl, inr, false, some, List, [], ◌∷◌, Text, text_eq, text_lt, codes, lookup, remove,
  count, values,
}
use localdb.Core.Jobs.{IndexJob, whole_store, create_index_job, complete_index_job, no_stats}
use localdb.Server.JobQueue.Evict.{
  evict_oldest_terminal_jobs_over_cap, candidates, sort, sorted_insert, remove_all, pair_lt,
  age_key, terminal_job,
}
use localdb.Server.JobQueue.Evict.Survivors.{WellKeyed}
use localdb.Server.JobQueue.Evict.Count.{evict-count, evict-keeps}
use localdb.Server.JobQueue.Evict.Order.{evict-oldest}

abbrev job_done : Text → Text → IndexJob
job_done id at =
    complete_index_job (create_index_job id (codes "s") whole_store (codes "a")) no_stats at

abbrev two_done : List (Text × IndexJob)
two_done =
    (codes "x", job_done (codes "x") (codes "c"))
    ∷ (codes "y", job_done (codes "y") (codes "b"))
    ∷ []

two_done-WellKeyed : WellKeyed two_done
unfolding complete_index_job create_index_job text_eq
two_done-WellKeyed = (refl, refl, (refl, refl, tt))

evict-count_example :
    count terminal_job
      (values (evict_oldest_terminal_jobs_over_cap two_done 1 (codes "z") (codes "m")))
    ≡ 1
unfolding complete_index_job create_index_job text_eq text_lt candidates
evict-count_example = evict-count two_done 1 (codes "z") (codes "m") two_done-WellKeyed

evict-keeps_example :
    lookup (codes "x") (evict_oldest_terminal_jobs_over_cap two_done 1 (codes "x") (codes "m"))
    ≡ some (job_done (codes "x") (codes "c"))
unfolding lookup text_eq
evict-keeps_example =
    evict-keeps two_done 1 (codes "x") (codes "m") (codes "x") (job_done (codes "x") (codes "c"))
      two_done-WellKeyed refl (inr (inl refl))

evict-oldest_example :
    pair_lt
      (age_key (job_done (codes "x") (codes "c")))
      (age_key (job_done (codes "y") (codes "b")))
    ≡ false
unfolding lookup remove text_eq text_lt pair_lt sorted_insert sort remove_all candidates
    evict_oldest_terminal_jobs_over_cap complete_index_job create_index_job
evict-oldest_example =
    evict-oldest two_done 1 (codes "z") (codes "m") (codes "y") (codes "x")
      (job_done (codes "y") (codes "b")) (job_done (codes "x") (codes "c")) two_done-WellKeyed refl
      refl refl refl refl
