-- ===== src/Runs.antt =====
-- Runs: from the row in Postgres to the Job in the cluster and back (internal/runs).
pub mod Rows
pub mod Resources
pub mod Reconcile
pub mod Quota
pub mod Dispatch
pub mod Hub
pub mod Feedback
pub mod Serving
pub mod Surface
