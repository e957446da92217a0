-- ===== src/Scope.antt =====
-- billing/scope.py: which accounts a customer owns, and what a request may select.
pub mod Ownership
pub mod Resolution
pub mod Contained
pub mod Windows
pub mod Intervals
pub mod Windowed
pub mod Units
pub mod Owned
mod Tests
