-- ===== src/Release.antt =====
-- deploy/github-release/agent.py: the activation of a release on an instance, and its rollback.
pub mod Files
pub mod World
pub mod Rollback
pub mod Activate
pub mod Outcomes
pub mod Recoverable
pub mod Restored
pub mod Reversal
pub mod Installed
pub mod Prepared
pub mod Activation
mod Tests
