-- ===== src/Policy.antt =====
-- agents/go/policy: the guards around the model and the tools.
mod Tests
pub mod Spans
pub mod Checksum
pub mod Compaction
pub mod Budget
pub mod Locks
