-- ===== src/Compression.antt =====
-- crates/tracepress-compression: bounded shadow compression of tool results.
pub mod Types
pub mod Varint
pub mod Records
pub mod Text
pub mod Evaluate
pub mod Compressors
mod Tests
