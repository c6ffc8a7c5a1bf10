-- ===== src/Server/JobQueue/Evict/Count.antt =====
-- How many terminal jobs an eviction leaves.
use localdb.Prelude.{
  ℕ, zero, suc, ◌+◌, ◌-◌, ◌≡◌, refl, ◌⊎◌, inl, inr, Bool, true, false, Bool-cases, unwrap_or, some,
  List, [], ◌∷◌, map, Text, text_eq_iff, text_lt, length, take, keep, count, values, lookup, remove,
  lookup-remove, length-take, leb, min, arith,
}
use localdb.Core.Jobs.{IndexJob, is_terminal}
use localdb.Server.JobQueue.Evict.Survivors.{
  WellKeyed, has_id, has_key, has_id-sorted_insert, has_id-take, has_id-has_key, has_id-sort,
  satisfies, candidate-lookup, remove-WellKeyed, lookup-evict, lookup-id,
}
use localdb.Server.JobQueue.Evict.{
  sorted_insert, sort, remove_all, candidates, is_candidate, age_key, terminal_job,
  evict_oldest_terminal_jobs_over_cap,
}

abbrev Distinct : List (Text × Text) → Type 0
Distinct [] = Unit
Distinct ((at, id) ∷ ps) = (has_id id ps ≡ false) × Distinct ps

sorted_insert-Distinct :
    (at id : Text) (ps : List (Text × Text))
    → has_id id ps ≡ false
    → Distinct ps
    → Distinct (sorted_insert (at, id) ps)
unfolding sorted_insert
sorted_insert-Distinct at id [] h d = (refl, tt)
sorted_insert-Distinct at id ((at', id') ∷ ps) h d = ground (
  arith,
  text_eq_iff id id',
  text_eq_iff id' id,
  has_id-sorted_insert id' (at, id) ps,
  sorted_insert-Distinct at id ps,
)

sort-Distinct : (ps : List (Text × Text)) → Distinct ps → Distinct (sort ps)
unfolding sort
sort-Distinct [] d = tt
sort-Distinct ((at, id) ∷ ps) d =
    sorted_insert-Distinct at id (sort ps) (ground (arith, has_id-sort id ps))
      (sort-Distinct ps d.1)

take-Distinct : (n : ℕ) (ps : List (Text × Text)) → Distinct ps → Distinct (take n ps)
take-Distinct zero ps d = tt
take-Distinct (suc n) [] d = tt
take-Distinct (suc n) ((at, id) ∷ ps) d =
    ground (arith, has_id-take id n ps, take-Distinct n ps d.1)

candidates-Distinct :
    (p : IndexJob → Bool) (r : List (Text × IndexJob))
    → WellKeyed r
    → Distinct (map age_key (keep p (values r)))
candidates-Distinct p [] w = tt
candidates-Distinct p ((k, job) ∷ r) (e, fresh, w) =
    ground (arith, has_id-has_key p job.id r w, candidates-Distinct p r w)

remove_fresh : (k : Text) (r : List (Text × IndexJob)) → has_key k r ≡ false → remove k r ≡ r
unfolding remove
remove_fresh k [] h = refl
remove_fresh k ((j, job) ∷ r) h = ground (arith, remove_fresh k r)

count-remove :
    (k : Text) (r : List (Text × IndexJob))
    → WellKeyed r
    → satisfies terminal_job (lookup k r) ≡ true
    → suc (count terminal_job (values (remove k r))) ≡ count terminal_job (values r)
unfolding lookup remove
count-remove k [] w h = cc
count-remove k ((j, job) ∷ r) (e, fresh, w) h =
    ground (arith, text_eq_iff j k, remove_fresh k r, count-remove k r w)

count-remove_all :
    (ps : List (Text × Text)) (r : List (Text × IndexJob))
    → WellKeyed r
    → Distinct ps
    → ((k : Text) → has_id k ps ≡ true → satisfies terminal_job (lookup k r) ≡ true)
    → count terminal_job (values (remove_all ps r)) + length ps ≡ count terminal_job (values r)
unfolding remove_all
count-remove_all [] r w d all = omega arith
count-remove_all ((at, id) ∷ ps) r w d all = omega (
  arith,
  count-remove id r w (all id (ground (arith, text_eq_iff id id))),
  count-remove_all ps (remove id r) (remove-WellKeyed id r w) d.1
      λ k h. ground (arith, lookup-remove id k r, text_eq_iff id k, all k),
)

length-sorted_insert :
    (p : Text × Text) (ps : List (Text × Text)) → length (sorted_insert p ps) ≡ suc (length ps)
unfolding sorted_insert
length-sorted_insert p [] = refl
length-sorted_insert p (q ∷ ps) = ground (arith, length-sorted_insert p ps)

length-sort : (ps : List (Text × Text)) → length (sort ps) ≡ length ps
unfolding sort
length-sort [] = refl
length-sort (p ∷ ps) = omega (arith, length-sorted_insert p (sort ps), length-sort ps)

candidate-terminal :
    (protect_id cutoff k : Text) (r : List (Text × IndexJob))
    → WellKeyed r
    → has_id k (candidates protect_id cutoff r) ≡ true
    → satisfies terminal_job (lookup k r) ≡ true
unfolding candidates
candidate-terminal protect_id cutoff k r w h =
    ground (arith, candidate-lookup (is_candidate protect_id cutoff) k r w)

-- An eviction removes as many terminal jobs as there are above the cap, or all the candidates where
-- these are fewer.
pub evict-count :
    (r : List (Text × IndexJob)) (cap : ℕ) (protect_id cutoff : Text)
    → WellKeyed r
    → count terminal_job (values (evict_oldest_terminal_jobs_over_cap r cap protect_id cutoff))
      ≡ count terminal_job (values r)
        - min (count terminal_job (values r) - cap) (length (candidates protect_id cutoff r))
unfolding evict_oldest_terminal_jobs_over_cap
evict-count r cap protect_id cutoff w =
    elim (Bool-cases (leb (count terminal_job (values r)) cap)) [
      | inl few ↦ ground arith
      | inr many ↦
          rw (many, evict_oldest_terminal_jobs_over_cap)
            (omega (
              arith,
              count-remove_all chosen r w
                  (take-Distinct overflow (sort found) (sort-Distinct found distinct))
                  (λ k h.
                    candidate-terminal protect_id cutoff k r w
                      (ground (arith, has_id-sort k found, has_id-take k overflow (sort found)))),
              length-take overflow (sort found),
              length-sort found,
            ))
    ]
  where
    found : List (Text × Text)
    found = candidates protect_id cutoff r

    overflow : ℕ
    overflow = count terminal_job (values r) - cap

    chosen : List (Text × Text)
    chosen = take overflow (sort found)

    distinct : Distinct found
    distinct = unfold candidates in candidates-Distinct (is_candidate protect_id cutoff) r w

-- A job keeps its entry if it is pending or running, or if it is the protected one, or if it
-- completed at or after the cutoff.
pub evict-keeps :
    (r : List (Text × IndexJob)) (cap : ℕ) (protect_id cutoff i : Text) (job : IndexJob)
    → WellKeyed r
    → lookup i r ≡ some job
    → (is_terminal job.state ≡ false)
      ⊎ ((i ≡ protect_id) ⊎ (text_lt (unwrap_or job.completed_at []) cutoff ≡ false))
    → lookup i (evict_oldest_terminal_jobs_over_cap r cap protect_id cutoff) ≡ some job
evict-keeps r cap protect_id cutoff i job w e spared = ground (
  arith,
  lookup-evict i r cap protect_id cutoff w,
  lookup-id i r w job,
  text_eq_iff job.id protect_id,
)
