-- ===== src/Core.antt =====
-- crates/tracepress-core: the byte, stream and structural budgets, the resource configuration, the
-- completion rule of an inference, the frozen context bindings and the text of content identities.
pub mod ByteBoundary
pub mod Stream
pub mod Budget
pub mod Lifecycle
pub mod Binding
pub mod Limits
pub mod Identity
mod Tests
