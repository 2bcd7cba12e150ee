-- ===== src/Context.antt =====
-- crates/tracepress-context: what changed between two snapshots of a context.
pub mod Types
pub mod Counts
pub mod Delta
pub mod Visibility
pub mod Reconciliation
mod Tests
