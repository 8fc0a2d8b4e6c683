-- ===== src/Data.antt =====
-- agents/go/data: the dataset and its audited writes.
mod Tests
pub mod Tables
pub mod Transaction
pub mod Write
pub mod Read
pub mod Refused
