-- ===== src/Server/JobQueue/Evict.antt =====
-- `evict_oldest_terminal_jobs_over_cap`: the bound on the terminal jobs that the registry keeps.
pub mod Survivors
pub mod Writes
pub mod Count
pub mod Order
mod Tests
use localdb.Prelude.{
  ℕ, ◌-◌, ◌≡◌, Bool, true, false, not, ◌&&◌, ◌||◌, Option, none, some, List, [], ◌∷◌, map, Text,
  text_eq, text_lt, codes, leb, length, take, keep, count, values, remove, unwrap_or, if◌then◌else◌,
  lookup, insert,
}
use localdb.Core.Jobs.{IndexJob, is_terminal}
use localdb.Server.JobQueue.State.{JobQueue, max_terminal_jobs}

-- The order of `(String, String)`.
unfoldable pub pair_lt : Text × Text → Text × Text → Bool
pair_lt (a, b) (c, d) = text_lt a c || (text_eq a c && text_lt b d)

-- `candidates.sort()`, as an insertion sort.
unfoldable pub sorted_insert : Text × Text → List (Text × Text) → List (Text × Text)
sorted_insert p [] = p ∷ []
sorted_insert p (r ∷ rs) = if pair_lt r p then r ∷ sorted_insert p rs else p ∷ r ∷ rs

unfoldable pub sort : List (Text × Text) → List (Text × Text)
sort [] = []
sort (p ∷ ps) = sorted_insert p (sort ps)

abbrev pub terminal_job : IndexJob → Bool
terminal_job job = is_terminal job.state

-- The three filters: terminal, not the protected job, and completed before the cutoff.
abbrev pub is_candidate : Text → Text → IndexJob → Bool
is_candidate protect_id cutoff job =
    terminal_job job
    && (not (text_eq job.id protect_id) && text_lt (unwrap_or job.completed_at []) cutoff)

abbrev pub age_key : IndexJob → Text × Text
age_key job = (unwrap_or job.completed_at [], job.id)

unfoldable pub remove_all : List (Text × Text) → List (Text × IndexJob) → List (Text × IndexJob)
remove_all [] registry = registry
remove_all ((at, id) ∷ rest) registry = remove_all rest (remove id registry)

unfoldable pub candidates : Text → Text → List (Text × IndexJob) → List (Text × Text)
candidates protect_id cutoff registry =
    map age_key (keep (is_candidate protect_id cutoff) (values registry))

unfoldable pub evict_oldest_terminal_jobs_over_cap :
    List (Text × IndexJob) → ℕ → Text → Text → List (Text × IndexJob)
evict_oldest_terminal_jobs_over_cap registry cap protect_id cutoff =
    let terminal_count = count terminal_job (values registry) in
    if leb terminal_count cap
    then registry
    else remove_all (take (terminal_count - cap) (sort (candidates protect_id cutoff registry)))
        registry

-- `registry.get_mut(&id)` and a change of the entry, if it is there.
unfoldable pub update_entry :
    (IndexJob → IndexJob) → Text → List (Text × IndexJob) → List (Text × IndexJob)
update_entry change id registry = elim (lookup id registry) [
  | none ↦ registry
  | some job ↦ insert id (change job) registry
]

-- A terminal write of one registry scope, with its eviction and its snapshot.
unfoldable pub write_terminal :
    (IndexJob → IndexJob) → Text → Text → JobQueue → JobQueue × Option IndexJob
write_terminal change id cutoff q =
    let registry =
      evict_oldest_terminal_jobs_over_cap (update_entry change id q.registry) max_terminal_jobs id
        cutoff in
    (record q { registry = registry }, lookup id registry)
