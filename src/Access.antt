-- ===== src/Access.antt =====
-- billing/access.py: which rows a request may see and change.
pub mod Tables
pub mod Membership
pub mod Restriction
pub mod Validation
pub mod Confined
pub mod Revocation
pub mod Accepted
pub mod Guards
mod Tests
