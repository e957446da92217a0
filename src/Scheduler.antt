-- ===== src/Scheduler.antt =====
-- billing/scheduler.py: six-hour slots, the jobs that they queue, and the handlers of the jobs.
pub mod Slots
pub mod Schedule
pub mod Requests
pub mod Handlers
pub mod Once
pub mod Settled
pub mod Idempotent
pub mod Later
pub mod Met
pub mod Ticks
mod Tests
