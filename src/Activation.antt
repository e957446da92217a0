-- ===== src/Activation.antt =====
-- billing/activation.py: the request to connect an account, and the service that carries it out.
pub mod Snapshots
pub mod Requests
pub mod Allowlist
pub mod Process
pub mod Completion
pub mod Calls
pub mod Proven
mod Tests
