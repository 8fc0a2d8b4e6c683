-- ===== src/Lib.antt =====
-- A verification library for the AgentOps agent, the Go program under agents/go.
--
-- The agent answers questions about incidents of a fictional fleet. Tools read and write a SQLite
-- dataset; each tool call runs under a guard with a deadline, retries and a circuit breaker; the
-- records of the dataset are parsed before anything trusts them; and each write is recorded in an
-- audit log in the transaction that makes it. What a model is shown and what is kept passes a policy
-- first, and the state directory with its databases is restored from snapshots as one transaction.
-- An A2A server keeps the tasks of its callers in a versioned store of its own. The two actions of the
-- agent go through the approval of a human to the audited writes.
--
-- Files:
-- - Prelude: shared names, lists, texts, integers, and the matcher for anchored regular expressions.
-- - Resilience: agents/go/resilience. Circuit models Breaker of circuit.go: Allow, RecordSuccess,
--   RecordFailure and RecordAbandoned are allow, record_success, record_failure and
--   record_abandoned; step is one call and run a history of calls in the order in which they take
--   the mutex. Registry is Breakers, and Guard models NewGuard, Run, backoffFor and wait of
--   resilience.go. The contexts and the called tool are a parameter, World.
-- - Domain: agents/go/domain. Identifier, Status and Record follow the files of those names.
-- - Data: agents/go/data. Tables holds the tables and the SQL statements, Transaction what the writes
--   of write.go share, Write the three writes, Read the reads of read.go. The engine may fail at each
--   statement. Before any of them the audit log is checked, as rejectFutureAuditSchema of schema.go
--   does; the publication of the dataset and the statements of its migration are one point of failure.
--   The function inside a transaction gives back the tables with an error too; a rollback, and a commit
--   that fails, bring back those of its beginning, as the engine documents. The look-up of an action
--   and its write see the same tables.
-- - Tools: agents/go/tools and agents/go/principal. Principal is principal.go; Approval and Action are
--   validatedApproval and the two actions of action.go, over the reads and writes of Data; Logs is
--   the search in the logs of read.go.
-- - A2a: agents/go/a2aserver. Metadata is metadata.go; Tasks the table and the SQL statements, Store
--   Create, Update and Get, Listing the List of taskstore.go, its two queries and the page tokens, with
--   the transaction of sqlite.go. The codecs of tasks, of base64 and of times are parameters.
-- - Policy: agents/go/policy. Checksum and Spans are the validators and the masking of pii.go,
--   Compaction is compaction.go, Budget is budget.go over a session service that is a parameter, and
--   Locks its registry of session locks, as steps of callbacks that interleave.
-- - State: agents/go/state. Disk is the state directory, the schedule of faults and the calls of the
--   operating system; Journal, Evidence, Rollback, Recovery and Restore follow journal.go, recovery.go
--   and restore.go. Logic and Safety prove what becomes of a directory in the course of one
--   transaction. A schedule says of each change whether it is made, refused or not reached; a change
--   that is made is durable. The hash function is a parameter. The encoding of documents, the lock,
--   the kinds of entries, the log, and the validation of a snapshot are left out.
--
-- Texts are lists of numbers: bytes or code points, as each file says. A uint64 wraps at 2^64, an int
-- at 2^63. The retry loop recurs on the attempts left, as many as the source's range. The check of
-- metadata recurs on the containers that it may still enter, one more than there are: none is entered
-- inside one of the same identity. An id of the audit log is a number without bound. Times are
-- arguments.
--
-- Not modelled: the texts of errors, logging and telemetry, the listing of breaker names, JSON
-- marshalling, and the parts of the repository that PROJECT.json lists as such.
pub mod Prelude
pub mod Resilience
pub mod Tools
pub mod Domain
pub mod Data
pub mod Policy
pub mod State
pub mod A2a
