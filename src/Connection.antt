-- ===== src/Connection.antt =====
-- AWS connections: their rows, their approval (billing/iam.py), and what scheduling and activation
-- read of them.
pub mod Tables
pub mod Approval
