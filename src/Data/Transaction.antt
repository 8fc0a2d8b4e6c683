-- ===== src/Data/Transaction.antt =====
-- agents/go/data/write.go, what the audited writes share: the transaction, the idempotency key and
-- the insertion of an audit entry. The database engine may fail at each statement: `World` says
-- where it does, and what the clock reads. The texts of errors are left out.
use agentops_open_course.Prelude.{
  true, ℕ, ◌+◌, Bool, not, List, [], ◌∷◌, ◌++◌, Option, none, some, ◌≡◌, ◌⊎◌, inl, inr, refl,
  if◌then◌else◌, Text,
}
use agentops_open_course.Domain.Record.{
  Field, New, created, rejected, AuditEntryRow, AuditEntry, new_audit_entry,
  current_audit_schema_version,
}
use agentops_open_course.Data.Tables.{has_unsupported, Database, select_audit}

pub record AuditIdentity : Type 0 where
  pub actor : Text
  pub approved_by : Text
  pub rationale : Text
  pub session_id : Text
  pub invocation_id : Text

pub record AuditRequest : Type 0 where
  pub identity : AuditIdentity
  pub open identity use *
  pub context_summary : Text
  pub action : Text
  pub target : Text
  pub detail : Text

-- The calls of the engine that can fail.
pub data Point : Type 0 where
  opening begin key_query context_query update affected insert last_insert_id commit closing : Point

pub record World : Type 0 where
  pub fails : Point → Bool
  -- `utcNow()` in the update and in the audit entry.
  pub update_now : Text
  pub audit_now : Text

pub data Error : Type 0 where
  failed : Point → Error
  unsupported_audit_schema : Error
  invalid_entry : List Field → Error

pub data Result {ℓ} (A : Type ℓ) : Type ℓ where
  ok : A → Result A
  err : Error → Result A

-- One call of the engine.
abbrev pub call : World → Point → Result (Unit {0})
call w p = if w.fails p then err (failed p) else ok tt

abbrev pub checked : New AuditEntry → Result AuditEntry
checked (created a) = ok a
checked (rejected fs) = err (invalid_entry fs)

-- `if err != nil { return …, err }` after a call; `>>` where the call gives nothing to go on with.
module _ {ℓ} {B : Type ℓ} where
  infixl 5 ◌>>=◌ ◌>>◌
  abbrev pub ◌>>=◌ {κ} : {A : Type κ} → Result A → (A → Result B) → Result B
  err e >>= f = err e
  ok a >>= f = f a

  abbrev pub ◌>>◌ : Result (Unit {0}) → Result B → Result B
  err e >> k = err e
  ok u >> k = k

unfoldable pub audit_for_idempotency_key :
    World → Text → Text → Text → Database → Result (Option AuditEntry)
audit_for_idempotency_key w invocation_id action target db = do
  call w key_query
  elim (select_audit invocation_id action target db.audit_log) [
    | none ↦ ok none
    | some row ↦ do a ← checked (new_audit_entry row); ok (some a)
  ]

abbrev pub inserted_row : World → AuditRequest → ℕ → AuditEntryRow
inserted_row w request entry_id = record {
  id = entry_id;
  schema_version = current_audit_schema_version;
  ts = w.audit_now;
  actor = request.actor;
  approved_by = request.approved_by;
  rationale = request.rationale;
  context_summary = request.context_summary;
  session_id = request.session_id;
  invocation_id = request.invocation_id;
  action = request.action;
  target = request.target;
  detail = request.detail;
}

-- A statement of a transaction that sees the tables `db`: where it fails, they stay as they are then.
abbrev pub continue {ℓ κ} :
    {A : Type ℓ} {B : Type κ}
    → Result A
    → Database
    → (A → Result B × Database)
    → Result B × Database
continue (err e) db k = (err e, db)
continue (ok a) db k = k a

unfoldable pub append_row : World → AuditRequest → Database → Result AuditEntry × Database
append_row w request db = continue (call w insert) db λ _.
    let row = inserted_row w request (db.last_id + 1) in
    let db' : Database = record db {
      audit_log = db.audit_log ++ row ∷ [];
      last_id = db.last_id + 1;
    } in
    continue (do call w last_insert_id; checked (new_audit_entry row)) db' λ a. (ok a, db')

-- What the function inside a transaction returns: whether to commit, and the entry that it has set.
-- With it stand the tables as the transaction sees them when it returns, with an error too.
abbrev pub TxResult : Type 0
TxResult = Result (Bool × Option AuditEntry) × Database

abbrev pub to_commit : Result AuditEntry × Database → TxResult
to_commit (err e, db) = (err e, db)
to_commit (ok a, db) = (ok (true, some a), db)

-- A rollback, and a commit that fails, bring back the tables of the beginning.
unfoldable pub in_write_transaction :
    World → (Database → TxResult) → Database → Result (Option AuditEntry) × Database
in_write_transaction w fn db =
    if w.fails begin
    then (err (failed begin), db)
    else (let (r, tx) = fn db in
        elim r [
          | err e ↦ (err e, db)
          | ok (wants_commit, entry) ↦
              if not wants_commit
              then (ok entry, db)
              else if w.fails commit
              then (err (failed commit), db)
              else (ok entry, tx)
        ])

-- `openForWrite` before, and `closeWith` after, a transaction. Opening publishes the runtime database
-- and migrates it: `opening` stands for a failure of any of their calls, and the migration refuses a
-- log with a row of a version that is not supported. What else it does is not to the rows.
unfoldable pub with_database :
    World → (Database → TxResult) → Database → Result (Option AuditEntry) × Database
unfolding in_write_transaction
with_database w fn db =
    if w.fails opening
    then (err (failed opening), db)
    else if has_unsupported db.audit_log
    then (err unsupported_audit_schema, db)
    else (let (r, db') = in_write_transaction w fn db in
        elim r [
          | err e ↦ (err e, db')
          | ok entry ↦ if w.fails closing then (err (failed closing), db') else (ok entry, db')
        ])

pub Result-cases {ℓ} :
    {A : Type ℓ} (m : Result A) → ((a : A) × (m ≡ ok a)) ⊎ ((e : Error) × (m ≡ err e))
Result-cases (ok a) = inl (a, refl)
Result-cases (err e) = inr (e, refl)

pub Step-cases {ℓ} :
    {A : Type ℓ} (m : Result A × Database)
    → ((a : A) × (db : Database) × (m ≡ (ok a, db)))
      ⊎ ((e : Error) × (db : Database) × (m ≡ (err e, db)))
Step-cases (ok a, db) = inl (a, db, refl)
Step-cases (err e, db) = inr (e, db, refl)
