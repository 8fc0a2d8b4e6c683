-- ===== src/A2a.antt =====
-- agents/go/a2aserver: what the server keeps of the tasks of its callers.
pub mod Metadata
pub mod Tasks
pub mod Store
pub mod Listing
mod Tests
