-- ===== src/Compression/Text/Run.antt =====
-- `TextRepeatedRun`: what is folded can be recovered.
mod Repeats
mod Search
pub mod RoundTrip
