-- ===== src/Ipc.antt =====
-- crates/tracepress-ipc: length-prefixed frames between the local processes.
pub mod Frame
pub mod Serialize
mod Tests
