-- ===== src/Server/JobQueue/Evict/Order.antt =====
-- Which candidates an eviction takes.
use localdb.Prelude.{
  ℕ, zero, suc, ◌-◌, ◌≡◌, refl, ◌∙◌, Bool, true, false, none, some, List, [], ◌∷◌, map, Text,
  text_eq, text_eq_iff, text_lt_cotrans, text_lt_irrefl, text_lt_trans, text_lt_total, take, keep,
  count, All, values, lookup, leb, if◌then◌else◌, arith, ◌⊎◌, inl, inr, Bool-cases,
}
use localdb.Core.Jobs.{IndexJob}
use localdb.Server.JobQueue.Evict.Survivors.{
  WellKeyed, has_key, has_id, has_id-sort, lookup-remove_all,
}
use localdb.Server.JobQueue.Evict.{
  pair_lt, sorted_insert, sort, remove_all, candidates, is_candidate, age_key, terminal_job,
  evict_oldest_terminal_jobs_over_cap,
}

pair_lt-cotrans :
    (p q r : Text × Text) → pair_lt p r ≡ true → (pair_lt p q ≡ true) ⊎ (pair_lt q r ≡ true)
unfolding pair_lt
pair_lt-cotrans (a, b) (c, d) (e, f) h = ground (
  arith,
  text_lt_cotrans a c e,
  text_lt_cotrans b d f,
  text_lt_total a c,
  text_lt_total c e,
  text_eq_iff a c,
  text_eq_iff c e,
  text_eq_iff a e,
)

-- Nothing after an entry is less.
abbrev Sorted : List (Text × Text) → Type 0
Sorted [] = Unit
Sorted (p ∷ ps) = All (λ q. pair_lt q p ≡ false) ps × Sorted ps

All-sorted_insert :
    (p q : Text × Text) (ps : List (Text × Text))
    → pair_lt p q ≡ false
    → All (λ r. pair_lt r q ≡ false) ps
    → All (λ r. pair_lt r q ≡ false) (sorted_insert p ps)
unfolding sorted_insert
All-sorted_insert p q [] h a = (h, tt)
All-sorted_insert p q (r ∷ ps) h a = ground (arith, All-sorted_insert p q ps h a.1)

pair_lt-asym : (p q : Text × Text) → pair_lt p q ≡ true → pair_lt q p ≡ false
unfolding pair_lt
pair_lt-asym (a, b) (c, d) h = ground (
  arith,
  text_lt_trans a c a,
  text_lt_irrefl a,
  text_lt_trans b d b,
  text_lt_irrefl b,
  text_eq_iff a c,
  text_eq_iff c a,
)

All-below :
    (p q : Text × Text) (ps : List (Text × Text))
    → pair_lt q p ≡ false
    → All (λ r. pair_lt r q ≡ false) ps
    → All (λ r. pair_lt r p ≡ false) ps
All-below p q [] h a = tt
All-below p q (r ∷ ps) h a = (ground (arith, pair_lt-cotrans r q p), All-below p q ps h a.1)

sorted_insert-Sorted :
    (p : Text × Text) (ps : List (Text × Text)) → Sorted ps → Sorted (sorted_insert p ps)
unfolding sorted_insert
sorted_insert-Sorted p [] s = (tt, tt)
sorted_insert-Sorted p (q ∷ ps) s = ground (
  arith,
  pair_lt-asym q p,
  All-sorted_insert p q ps,
  sorted_insert-Sorted p ps s.1,
  All-below p q ps,
)

sort-Sorted : (ps : List (Text × Text)) → Sorted (sort ps)
unfolding sort
sort-Sorted [] = tt
sort-Sorted (p ∷ ps) = sorted_insert-Sorted p (sort ps) (sort-Sorted ps)

-- A pair is the age key of the entry that its id has.
abbrev Aged : List (Text × IndexJob) → Text × Text → Type 0
Aged r (at, id) = (job : IndexJob) × (lookup id r ≡ some job) × (age_key job ≡ (at, id))

Aged-same :
    (r : List (Text × IndexJob)) (at id k : Text) (job : IndexJob)
    → Aged r (at, id)
    → text_eq id k ≡ true
    → lookup k r ≡ some job
    → age_key job ≡ (at, id)
Aged-same r at id k job (job', e, f) h g = ground (arith, text_eq_iff id k)

All-insert {κ} :
    (P : Text × Text → Type κ) (p : Text × Text) (ps : List (Text × Text))
    → P p
    → All P ps
    → All P (sorted_insert p ps)
unfolding sorted_insert
All-insert P p [] h a = (h, tt)
All-insert P p (r ∷ ps) h a = elim (Bool-cases (pair_lt r p)) [
  | inl less ↦ rw (less, sorted_insert) (a.0, All-insert P p ps h a.1)
  | inr more ↦ rw (more, sorted_insert) (h, a)
]

All-sort {κ} : (P : Text × Text → Type κ) (ps : List (Text × Text)) → All P ps → All P (sort ps)
unfolding sort
All-sort P [] a = tt
All-sort P (p ∷ ps) a = All-insert P p (sort ps) a.0 (All-sort P ps a.1)

below_of_id :
    (r : List (Text × IndexJob)) (p : Text × Text) (ps : List (Text × Text)) (k : Text)
    (b : IndexJob)
    → All (λ q. pair_lt q p ≡ false) ps
    → All (Aged r) ps
    → has_id k ps ≡ true
    → lookup k r ≡ some b
    → pair_lt (age_key b) p ≡ false
below_of_id r p [] k b s a h e = cc
below_of_id r p ((at, id) ∷ ps) k b s a h e = elim (Bool-cases (text_eq id k)) [
  | inl hit ↦ rw (Aged-same r at id k b a.0 hit e) s.0
  | inr miss ↦ below_of_id r p ps k b s.1 a.1 (ground arith) e
]

take_oldest :
    (r : List (Text × IndexJob)) (n : ℕ) (ps : List (Text × Text)) (i k : Text) (a b : IndexJob)
    → Sorted ps
    → All (Aged r) ps
    → lookup i r ≡ some a
    → lookup k r ≡ some b
    → has_id i (take n ps) ≡ true
    → has_id k (take n ps) ≡ false
    → has_id k ps ≡ true
    → pair_lt (age_key b) (age_key a) ≡ false
take_oldest r zero ps i k a b s g e f h o m = cc
take_oldest r (suc n) [] i k a b s g e f h o m = cc
take_oldest r (suc n) ((at, id) ∷ ps) i k a b s g e f h o m = elim (Bool-cases (text_eq id i)) [
  | inl hit ↦
      rw (Aged-same r at id i a g.0 hit e) (below_of_id r (at, id) ps k b s.0 g.1 (ground arith) f)
  | inr miss ↦ take_oldest r n ps i k a b s.1 g.1 e f (ground arith) (ground arith) (ground arith)
]

lookup-has_key : (k : Text) (s : List (Text × IndexJob)) → has_key k s ≡ false → lookup k s ≡ none
unfolding lookup
lookup-has_key k [] h = refl
lookup-has_key k ((j, job) ∷ s) h = ground (arith, lookup-has_key k s)

keys-Aged :
    (p : IndexJob → Bool) (r s : List (Text × IndexJob))
    → ((k : Text) (job : IndexJob) → lookup k s ≡ some job → lookup k r ≡ some job)
    → WellKeyed s
    → All (Aged r) (map age_key (keep p (values s)))
unfolding lookup
keys-Aged p r [] sub w = tt
keys-Aged p r ((k, job) ∷ s) sub (e, fresh, w) =
    let tail =
      keys-Aged p r s
        (λ k' job' h. sub k' job' (ground (arith, text_eq_iff k k', lookup-has_key k s fresh))) w in
    elim (Bool-cases (p job)) [
      | inl good ↦
          rw good ((job, sub job.id job (ground (arith, text_eq_iff k job.id)), refl), tail)
      | inr bad ↦ rw bad tail
    ]

has_id-candidate :
    (p : IndexJob → Bool) (k : Text) (r : List (Text × IndexJob)) (b : IndexJob)
    → WellKeyed r
    → lookup k r ≡ some b
    → p b ≡ true
    → has_id k (map age_key (keep p (values r))) ≡ true
unfolding lookup
has_id-candidate p k [] b w e h = cc
has_id-candidate p k ((j, job) ∷ r) b (f, fresh, w) e h =
    ground (arith, text_eq_iff j k, text_eq_iff job.id k, has_id-candidate p k r b w)

after-has_id :
    (r : List (Text × IndexJob)) (ps : List (Text × Text)) (i : Text) (job : IndexJob)
    → lookup i r ≡ some job
    → lookup i (remove_all ps r) ≡ (if has_id i ps then none else some job)
after-has_id r ps i job e = ground (arith, lookup-remove_all i ps r)

-- If a job is evicted and a candidate stays, then the candidate is not older than that job, where
-- age is the time of completion and then the id.
pub evict-oldest :
    (r : List (Text × IndexJob)) (cap : ℕ) (protect_id cutoff i k : Text) (a b : IndexJob)
    → WellKeyed r
    → lookup i r ≡ some a
    → lookup k r ≡ some b
    → is_candidate protect_id cutoff b ≡ true
    → let after = evict_oldest_terminal_jobs_over_cap r cap protect_id cutoff in
      lookup i after ≡ none → lookup k after ≡ some b → pair_lt (age_key b) (age_key a) ≡ false
unfolding evict_oldest_terminal_jobs_over_cap
evict-oldest r cap protect_id cutoff i k a b w e f c gone stays =
    elim (Bool-cases (leb (count terminal_job (values r)) cap)) [
      | inl few ↦ absurd (cc (e, rw (few, evict_oldest_terminal_jobs_over_cap) at gone))
      | inr many ↦
          let gone' = rw (many, evict_oldest_terminal_jobs_over_cap) at gone in
          let stays' = rw (many, evict_oldest_terminal_jobs_over_cap) at stays in
          take_oldest r overflow (sort found) i k a b (sort-Sorted found)
            (All-sort (Aged r) found (unfold candidates in keys-Aged _ r r (λ k job h. h) w)) e f
            (ground (arith, after-has_id r (take overflow (sort found)) i a e))
            (ground (arith, after-has_id r (take overflow (sort found)) k b f))
            (has_id-sort k found
              ∙ (unfold candidates in
                  has_id-candidate (is_candidate protect_id cutoff) k r b w f c))
    ]
  where
    found : List (Text × Text)
    found = candidates protect_id cutoff r

    overflow : ℕ
    overflow = count terminal_job (values r) - cap
