-- ===== src/Jobs.antt =====
-- The durable job queue, billing/jobs.py: the table `Job` of billing/models.py with leases,
-- retries and coalescing keys. The operations stand in the modules Enqueue, Lease, Outcome
-- (heartbeat, complete, fail, recover_expired) and Runner (run_job, run_once).
pub mod Types
pub mod Enqueue
pub mod Lease
pub mod Outcome
pub mod Runner
pub mod Consistency
pub mod OutcomeKeeps
pub mod Selection
pub mod LeaseKeeps
pub mod EnqueueKeeps
pub mod History
pub mod Progress
pub mod System
pub mod Soundness
pub mod Safety
pub mod Fencing
pub mod Claims
pub mod Reports
pub mod Running
pub mod Work
pub mod Requested
pub mod Termination
pub mod Coalescing
mod Tests
