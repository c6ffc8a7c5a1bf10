-- ===== src/Server/JobQueue/World/Invariant.antt =====
-- What holds of the queue between any two critical sections: each entry, each handle and each
-- reservation belongs to the phase that its job's owner has reached.
use localdb.Prelude.{
  ℕ, ◌≤◌, ◌<◌, ◌≡◌, Bool, true, false, Option, none, some, List, [], ◌∷◌, Text, text_eq, lookup,
  contains, if◌then◌else◌, arith,
}
use localdb.Core.Jobs.{IndexJob, IndexJobState, is_terminal}
use localdb.Server.JobQueue.State.{JobHandle, QueuedJob}
use localdb.Server.JobQueue.Evict.Survivors.{WellKeyed}
use localdb.Server.JobQueue.Evict.Writes.{Kept}
use localdb.Server.JobQueue.World.{
  Phase, absent, reserved, installed, published, refused, unguarded, refusal_recorded, queued,
  received, started, ended, torn_down, over, World,
}

abbrev pub entry_store : Option IndexJob → Option Text
entry_store none = none
entry_store (some job) = some job.store_id

abbrev pub entry_state : Option IndexJob → Option IndexJobState
entry_state none = none
entry_state (some job) = some job.state

-- The entry reached a terminal state, and may have been evicted since.
abbrev pub IsSettled : Option IndexJob → Type 0
IsSettled none = Unit
IsSettled (some job) = is_terminal job.state ≡ true

abbrev pub Holds : QueuedJob → Option JobHandle → Type 0
Holds x none = ⊥
Holds x (some h) = (h.events ≡ x.sink) × (h.cancel_token ≡ x.cancel_token)

-- What the maps hold for one job id, and that its token was handed out.
abbrev pub Good : Text → Phase → Option IndexJob → Option JobHandle → ℕ → Type 0
Good i absent e h n = (e ≡ none) × (h ≡ none)
Good i (reserved store_id) e h n = (e ≡ none) × (h ≡ none)
Good i (installed job x) e h n =
    (e ≡ none)
    × Holds x h
    × (x.id ≡ i)
    × (x.cancel_token < n)
    × (job.id ≡ i)
    × (job.state ≡ IndexJobState.pending)
    × (job.store_id ≡ x.store_id)
Good i (published x) e h n =
    (entry_state e ≡ some IndexJobState.pending)
    × Holds x h
    × (x.id ≡ i)
    × (x.cancel_token < n)
    × (entry_store e ≡ some x.store_id)
Good i (refused x) e h n =
    (entry_state e ≡ some IndexJobState.pending)
    × Holds x h
    × (x.id ≡ i)
    × (x.cancel_token < n)
    × (entry_store e ≡ some x.store_id)
Good i (unguarded x) e h n =
    (entry_state e ≡ some IndexJobState.pending)
    × Holds x h
    × (x.id ≡ i)
    × (x.cancel_token < n)
    × (entry_store e ≡ some x.store_id)
Good i (refusal_recorded x snapshot) e h n =
    IsSettled e × Holds x h × (x.id ≡ i) × (x.cancel_token < n)
Good i (queued x) e h n =
    (entry_state e ≡ some IndexJobState.pending)
    × Holds x h
    × (x.id ≡ i)
    × (x.cancel_token < n)
    × (entry_store e ≡ some x.store_id)
Good i (received x) e h n =
    (entry_state e ≡ some IndexJobState.pending)
    × Holds x h
    × (x.id ≡ i)
    × (x.cancel_token < n)
    × (entry_store e ≡ some x.store_id)
Good i (started x) e h n =
    (entry_state e ≡ some IndexJobState.running)
    × Holds x h
    × (x.id ≡ i)
    × (x.cancel_token < n)
    × (entry_store e ≡ some x.store_id)
Good i (ended x snapshot) e h n = IsSettled e × Holds x h × (x.id ≡ i) × (x.cancel_token < n)
Good i (torn_down x) e h n = IsSettled e × (h ≡ none)
Good i over e h n = IsSettled e × (h ≡ none)

abbrev pub GoodAt : World → Text → Type 0
GoodAt w i =
    Good i (w.phase i) (lookup i w.queue.registry) (lookup i w.queue.handles) w.queue.next_address

-- The store that the owner in this phase has reserved.
abbrev pub reservation : Phase → Option Text
reservation absent = none
reservation (reserved store_id) = some store_id
reservation (installed job x) = some x.store_id
reservation (published x) = some x.store_id
reservation (refused x) = some x.store_id
reservation (unguarded x) = none
reservation (refusal_recorded x snapshot) = none
reservation (queued x) = some x.store_id
reservation (received x) = some x.store_id
reservation (started x) = some x.store_id
reservation (ended x snapshot) = some x.store_id
reservation (torn_down x) = some x.store_id
reservation over = none

abbrev pub in_channel : Text → List QueuedJob → Bool
in_channel i [] = false
in_channel i (x ∷ xs) = if text_eq x.id i then true else in_channel i xs

-- Each job in the channel is queued, and stands there once.
abbrev pub IsWaiting : (Text → Phase) → List QueuedJob → Type 0
IsWaiting phase [] = Unit
IsWaiting phase (x ∷ xs) =
    (phase x.id ≡ queued x) × (in_channel x.id xs ≡ false) × IsWaiting phase xs

pub record Inv (w : World) : Type 0 where
  pub keyed : WellKeyed w.queue.registry
  pub each : (i : Text) → GoodAt w i
  pub waiting : IsWaiting w.phase w.queue.channel
  pub guarded : (i s : Text) → reservation (w.phase i) ≡ some s → contains s w.queue.inflight ≡ true
  pub exclusive :
      (i j s : Text) → reservation (w.phase i) ≡ some s → reservation (w.phase j) ≡ some s → i ≡ j

pub Good-Kept :
    (i : Text) (p : Phase) (e e' : Option IndexJob) (h h' : Option JobHandle) (n n' : ℕ)
    → Good i p e h n
    → Kept e e'
    → h' ≡ h
    → n ≤ n'
    → Good i p e' h' n'
Good-Kept i absent e e' h h' n n' g k s l = ground arith
Good-Kept i p e e' h h' n n' g k s l = ground arith
