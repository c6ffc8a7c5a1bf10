-- ===== src/Server/JobQueue/Evict/Survivors.antt =====
-- Which entries an eviction removes: a registry keyed by job ids loses candidates only.
use localdb.Prelude.{
  ℕ, zero, suc, ◌-◌, ◌≡◌, refl, ap, ◌∙◌, ◌⊎◌, inl, inr, Bool, true, false, ◌||◌, Option, none, some,
  List, [], ◌∷◌, map, Text, text_eq, text_eq_iff, take, keep, count, values, lookup, insert, remove,
  lookup-remove, if◌then◌else◌, Option-cases, arith,
}
use localdb.Core.Jobs.{IndexJob}
use localdb.Server.JobQueue.Evict.{
  sorted_insert, sort, remove_all, candidates, is_candidate, age_key, terminal_job,
  evict_oldest_terminal_jobs_over_cap,
}

abbrev pub has_id : Text → List (Text × Text) → Bool
has_id i [] = false
has_id i ((at, id) ∷ ps) = text_eq id i || has_id i ps

pub has_id-sorted_insert :
    (i : Text) (p : Text × Text) (ps : List (Text × Text))
    → has_id i (sorted_insert p ps) ≡ (text_eq p.1 i || has_id i ps)
unfolding sorted_insert
has_id-sorted_insert i (at, id) [] = refl
has_id-sorted_insert i (at, id) ((at', id') ∷ ps) =
    ground (arith, has_id-sorted_insert i (at, id) ps)

pub has_id-sort : (i : Text) (ps : List (Text × Text)) → has_id i (sort ps) ≡ has_id i ps
unfolding sort
has_id-sort i [] = refl
has_id-sort i ((at, id) ∷ ps) =
    has_id-sorted_insert i (at, id) (sort ps) ∙ ap (λ b. text_eq id i || b) (has_id-sort i ps)

pub has_id-take :
    (i : Text) (n : ℕ) (ps : List (Text × Text)) → has_id i (take n ps) ≡ true → has_id i ps ≡ true
has_id-take i zero ps h = cc
has_id-take i (suc n) [] h = cc
has_id-take i (suc n) ((at, id) ∷ ps) h = ground (arith, has_id-take i n ps)

pub lookup-remove_all :
    (i : Text) (ps : List (Text × Text)) (registry : List (Text × IndexJob))
    → lookup i (remove_all ps registry) ≡ (if has_id i ps then none else lookup i registry)
unfolding remove_all
lookup-remove_all i [] registry = refl
lookup-remove_all i ((at, id) ∷ ps) registry =
    ground (arith, lookup-remove_all i ps (remove id registry), lookup-remove id i registry)

abbrev pub has_key : Text → List (Text × IndexJob) → Bool
has_key k [] = false
has_key k ((j, job) ∷ r) = text_eq j k || has_key k r

-- Each entry stands under its own job's id, and no id has two entries.
abbrev pub WellKeyed : List (Text × IndexJob) → Type 0
WellKeyed [] = Unit
WellKeyed ((k, job) ∷ r) = (job.id ≡ k) × (has_key k r ≡ false) × WellKeyed r

abbrev pub satisfies : (IndexJob → Bool) → Option IndexJob → Bool
satisfies p none = false
satisfies p (some job) = p job

pub has_id-has_key :
    (p : IndexJob → Bool) (i : Text) (r : List (Text × IndexJob))
    → WellKeyed r
    → has_id i (map age_key (keep p (values r))) ≡ true
    → has_key i r ≡ true
has_id-has_key p i [] w h = cc
has_id-has_key p i ((k, job) ∷ r) (e, fresh, w) h =
    ground (arith, text_eq_iff job.id i, text_eq_iff k i, has_id-has_key p i r w)

pub candidate-lookup :
    (p : IndexJob → Bool) (i : Text) (r : List (Text × IndexJob))
    → WellKeyed r
    → has_id i (map age_key (keep p (values r))) ≡ true
    → satisfies p (lookup i r) ≡ true
unfolding lookup
candidate-lookup p i [] w h = cc
candidate-lookup p i ((k, job) ∷ r) (e, fresh, w) h =
    ground (
      arith,
      text_eq_iff job.id i,
      text_eq_iff k i,
      has_id-has_key p i r w,
      candidate-lookup p i r w,
    )

-- An entry survives an eviction, or it was a candidate.
pub lookup-evict :
    (i : Text) (r : List (Text × IndexJob)) (cap : ℕ) (protect_id cutoff : Text)
    → WellKeyed r
    → let after = lookup i (evict_oldest_terminal_jobs_over_cap r cap protect_id cutoff) in
      (after ≡ lookup i r)
      ⊎ ((after ≡ none) × (satisfies (is_candidate protect_id cutoff) (lookup i r) ≡ true))
unfolding evict_oldest_terminal_jobs_over_cap candidates
lookup-evict i r cap protect_id cutoff w = ground (
  arith,
  lookup-remove_all i
      (take (count terminal_job (values r) - cap)
        (sort (map age_key (keep (is_candidate protect_id cutoff) (values r)))))
      r,
  has_id-take i (count terminal_job (values r) - cap)
      (sort (map age_key (keep (is_candidate protect_id cutoff) (values r)))),
  has_id-sort i (map age_key (keep (is_candidate protect_id cutoff) (values r))),
  candidate-lookup (is_candidate protect_id cutoff) i r w,
)

has_key-remove :
    (k i : Text) (r : List (Text × IndexJob)) → has_key k r ≡ false → has_key k (remove i r) ≡ false
unfolding remove
has_key-remove k i [] h = refl
has_key-remove k i ((j, job) ∷ r) h = ground (arith, has_key-remove k i r)

has_key-insert :
    (k i : Text) (job : IndexJob) (r : List (Text × IndexJob))
    → has_key k (insert i job r) ≡ (text_eq i k || has_key k r)
unfolding insert
has_key-insert k i job [] = refl
has_key-insert k i job ((j, w) ∷ r) =
    ground (arith, text_eq_iff j i, text_eq_iff j k, text_eq_iff i k, has_key-insert k i job r)

pub remove-WellKeyed :
    (i : Text) (r : List (Text × IndexJob)) → WellKeyed r → WellKeyed (remove i r)
unfolding remove
remove-WellKeyed i [] w = tt
remove-WellKeyed i ((j, job) ∷ r) (e, fresh, w) =
    ground (arith, has_key-remove j i r, remove-WellKeyed i r w)

pub insert-WellKeyed :
    (i : Text) (job : IndexJob) (r : List (Text × IndexJob))
    → job.id ≡ i
    → WellKeyed r
    → WellKeyed (insert i job r)
unfolding insert
insert-WellKeyed i job [] e w = (e, refl, tt)
insert-WellKeyed i job ((j, v) ∷ r) e (e', fresh, w) = ground (
  arith,
  text_eq_iff j i,
  text_eq_iff i j,
  has_key-insert j i job r,
  insert-WellKeyed i job r e w,
)

remove_all-WellKeyed :
    (ps : List (Text × Text)) (r : List (Text × IndexJob))
    → WellKeyed r
    → WellKeyed (remove_all ps r)
unfolding remove_all
remove_all-WellKeyed [] r w = w
remove_all-WellKeyed ((at, id) ∷ ps) r w =
    remove_all-WellKeyed ps (remove id r) (remove-WellKeyed id r w)

pub evict-WellKeyed :
    (r : List (Text × IndexJob)) (cap : ℕ) (protect_id cutoff : Text)
    → WellKeyed r
    → WellKeyed (evict_oldest_terminal_jobs_over_cap r cap protect_id cutoff)
unfolding evict_oldest_terminal_jobs_over_cap
evict-WellKeyed r cap protect_id cutoff w = ground (
  arith,
  remove_all-WellKeyed
      (take (count terminal_job (values r) - cap) (sort (candidates protect_id cutoff r))) r w,
)

-- An entry's job carries the entry's key.
pub lookup-id :
    (i : Text) (r : List (Text × IndexJob))
    → WellKeyed r
    → (job : IndexJob) → lookup i r ≡ some job
    → job.id ≡ i
unfolding lookup
lookup-id i [] w job h = cc
lookup-id i ((k, job') ∷ r) (e, fresh, w) job h =
    ground (arith, text_eq_iff k i, lookup-id i r w job)

-- So the protected job is no candidate.
pub lookup-protected :
    (i cutoff : Text) (r : List (Text × IndexJob))
    → WellKeyed r
    → satisfies (is_candidate i cutoff) (lookup i r) ≡ false
lookup-protected i cutoff r w = elim (Option-cases (lookup i r)) [
  | inl e ↦ rw e
  | inr (job, e) ↦ rw e (ground (arith, lookup-id i r w job, text_eq_iff job.id i))
]
