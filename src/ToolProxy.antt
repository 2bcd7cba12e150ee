-- ===== src/ToolProxy.antt =====
-- crates/tracepress-tool-proxy: which commands are admitted, and which reducers may be active.
pub mod Model
pub mod Admission
pub mod Policy
mod Tests
