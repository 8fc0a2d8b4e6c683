-- ===== src/State.antt =====
-- agents/go/state: the restore of a snapshot, as a transaction over the files of a directory, and
-- the recovery of one that was interrupted.
mod Tests
pub mod Maps
pub mod Disk
pub mod Journal
pub mod Evidence
pub mod Rollback
pub mod Recovery
pub mod Restore
pub mod Logic
pub mod Safety
