-- ===== src/Server/JobQueue/Submit.antt =====
-- `JobQueue::submit`, one definition for each lock that it takes, and the whole of it.
use localdb.Prelude.{
  ℕ, suc, false, Option, none, some, [], ◌∷◌, ◌++◌, Text, codes, ltb, ◌==◌, length, lookup, insert,
  remove, contains, delete, unwrap_or, if◌then◌else◌,
}
use localdb.Core.Errors.{Error, index_in_progress, Result, ok, err}
use localdb.Core.Jobs.{IndexJob, IndexJobScope, create_index_job, fail_index_job}
use localdb.Server.JobQueue.State.{
  JobQueue, JobHandle, QueuedJob, Clock, queue_capacity, terminal, send_event,
}
use localdb.Server.JobQueue.Evict.{write_terminal}

-- `inflight.insert(store_id)`, refused if the store is in the set.
unfoldable pub reserve : Text → JobQueue → Result Error JobQueue
reserve store_id q =
    if contains store_id q.inflight
    then err index_in_progress
    else ok (record q { inflight = store_id ∷ q.inflight })

-- A fresh channel and a fresh token, under one new address.
unfoldable pub install_handle : Text → JobQueue → JobQueue × JobHandle
install_handle id q =
    let h = q.next_address in
    (
      record q {
        handles = insert id (record { events = h; cancel_token = h }) q.handles;
        tokens = λ a. if h == a then false else q.tokens a;
        sent = λ a. if h == a then [] else q.sent a;
        next_address = suc h;
      },
      record { events = h; cancel_token = h },
    )

unfoldable pub publish : IndexJob → JobQueue → JobQueue
publish job q = record q { registry = insert job.id job q.registry }

pub data Sending : Type 0 where
  sent_to_workers : JobQueue → Sending
  receiver_gone : Sending
  waiting : Sending

-- `sender.send(queued).await`: an error if the receiver is gone, a wait while the channel is full.
unfoldable pub enqueue : QueuedJob → JobQueue → Sending
enqueue queued q =
    if q.closed
    then receiver_gone
    else if ltb (length q.channel) queue_capacity
    then sent_to_workers (record q { channel = q.channel ++ queued ∷ [] })
    else waiting

unfoldable pub release : Text → JobQueue → JobQueue
release store_id q = record q { inflight = delete store_id q.inflight }

-- The registry scope of the failed send: the terminal write, the eviction and the snapshot.
unfoldable pub record_refusal : Text → Clock → JobQueue → JobQueue × Option IndexJob
record_refusal id clock q =
    write_terminal (λ job. fail_index_job job (codes "job queue is full or closed") clock.now) id
      clock.cutoff q

-- The end of the failed send: the snapshot goes to the sender that the call itself holds.
unfoldable pub close_refusal : Text → ℕ → Option IndexJob → JobQueue → JobQueue
close_refusal id tx none q = record q { handles = remove id q.handles }
close_refusal id tx (some job) q = record q {
  handles = remove id q.handles;
  sent = send_event tx (terminal job) q.sent;
}

pub data Submission : Type 0 where
  rejected : Error → Submission
  accepted : IndexJob → JobQueue → Submission
  blocked : Submission

-- What the call answers: the registry's entry, or the job as it was created.
abbrev pub answer : IndexJob → JobQueue → Submission
answer job q = accepted (unwrap_or (lookup job.id q.registry) job) q

-- The branch of the failed send, up to the answer.
unfoldable pub abandon : IndexJob → QueuedJob → Clock → JobQueue → Submission
abandon job queued clock q =
    let (q', snapshot) = record_refusal job.id clock (release queued.store_id q) in
    answer job (close_refusal job.id queued.sink snapshot q')

unfoldable pub hand_over : IndexJob → QueuedJob → Clock → JobQueue → Submission
hand_over job queued clock q = elim (enqueue queued q) [
  | sent_to_workers q' ↦ answer job q'
  | receiver_gone ↦ abandon job queued clock q
  | waiting ↦ blocked
]

unfoldable pub admit : IndexJob → Clock → JobQueue → Submission
admit job clock q =
    let (q', h) = install_handle job.id q in
    hand_over job
      (record {
        id = job.id;
        store_id = job.store_id;
        sink = h.events;
        cancel_token = h.cancel_token;
      })
      clock (publish job q')

-- The whole call with nothing between its locks, the new ulid and the clock given.
unfoldable pub submit : Text → IndexJobScope → Text → Clock → JobQueue → Submission
submit store_id scope ulid clock q = elim (reserve store_id q) [
  | err e ↦ rejected e
  | ok q' ↦ admit (create_index_job ulid store_id scope clock.now) clock q'
]
