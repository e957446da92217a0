-- ===== src/Budgets.antt =====
-- billing/budgets.py: monthly limits, their evaluation against stored costs, and alerts.
pub mod Amounts
pub mod Schedule
pub mod Overrides
pub mod Tables
pub mod Evaluate
pub mod Alerts
pub mod Verdicts
pub mod Deduplicated
pub mod Forecasts
pub mod Units
pub mod Expected
pub mod Summary
mod Tests
