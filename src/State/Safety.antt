-- ===== src/State/Safety.antt =====
-- Crash safety of the restore of agents/go/state: what a directory holds in the course of one
-- transaction, from the files of the old generation to those of the new.
pub mod Records
pub mod Invariant
pub mod Moves
pub mod Cleanup
pub mod Quarantine
pub mod Unpublish
pub mod Reinstate
pub mod Rollback
pub mod Checks
pub mod Phases
pub mod Recover
pub mod Adopt
pub mod Inventories
pub mod Convergence
pub mod Unwind
pub mod Staging
pub mod Install
pub mod Quiet
pub mod Completion
pub mod Publish
pub mod Undisturbed
pub mod Commit
