-- ===== src/Server/JobQueue.antt =====
-- The job queue of server/src/job_queue.rs: its state and the critical sections that change it
-- (State, Evict, Submit, Cancel, Worker), and their interleavings (World).
pub mod State
pub mod Evict
pub mod Submit
pub mod Cancel
pub mod Worker
pub mod World
