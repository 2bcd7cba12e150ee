-- ===== src/Provider.antt =====
-- crates/tracepress-provider: what the proxy observes of requests and responses.
pub mod Domain
pub mod Json
pub mod Span
pub mod Usage
pub mod Sse
pub mod Interpret
pub mod Observer
pub mod Response
pub mod Request
mod Tests
