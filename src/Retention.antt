-- ===== src/Retention.antt =====
-- packages/retention: gallring, the lawful disposal of cases and logs.
pub mod Types
pub mod Policy
pub mod Report
pub mod Executor
pub mod Lawful
pub mod Due
