-- ===== src/Allocation.antt =====
-- billing/allocation.py: rules that allocate a customer's spend to projects.
pub mod Rules
pub mod Claims
pub mod Disjoint
pub mod Validated
pub mod Windows
pub mod Project
pub mod Coverage
pub mod Windowed
pub mod Conserved
pub mod Others
mod Tests
