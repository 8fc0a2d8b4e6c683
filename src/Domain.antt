-- ===== src/Domain.antt =====
-- agents/go/domain: identifiers, statuses, records and the reference vocabulary.
mod Tests
pub mod Identifier
pub mod Status
pub mod Record
pub mod Vocabulary
