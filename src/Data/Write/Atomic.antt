-- ===== src/Data/Write/Atomic.antt =====
-- What a write that goes through leaves.
use agentops_open_course.Prelude.{
  ◌+◌, true, not, ◌||◌, [], ◌∷◌, ◌++◌, Option, ◌≡◌, ◌⊎◌, inl, inr, refl, arith, Bool-cases,
}
use agentops_open_course.Domain.Record.{New, created, rejected, AuditEntry, new_audit_entry}
use agentops_open_course.Data.Tables.{has_unsupported, Database}
use agentops_open_course.Data.Transaction.{
  Step-cases, AuditRequest, World, Error, ok, err, commit, checked, invalid_entry, opening, begin,
  TxResult, with_database, inserted_row, append_row,
}
use agentops_open_course.Data.Write.{Write, appends, restarts, resolves, transaction, write}

pub write-with_database :
    (w : World) (r : Write) (db : Database) → write w r db ≡ with_database w (transaction w r) db
unfolding write transaction
write-with_database w (appends request) db = refl
write-with_database w (restarts name identity) db = refl
write-with_database w (resolves id identity) db = refl

pub with_database_effect :
    (w : World) (fn : Database → TxResult) (db : Database)
    → ((with_database w fn db).1 ≡ db)
      ⊎ ((entry : Option AuditEntry) × (fn db ≡ (ok (true, entry), (with_database w fn db).1)))
unfolding with_database
with_database_effect w fn db = elim (Step-cases (fn db)) [
  | inr (e, _, q) ↦ inl (ground (arith, q))
  | inl ((c, entry), db', q) ↦
      elim (Bool-cases (
        not c
        || (w.fails opening
            || (has_unsupported db.audit_log || (w.fails begin || w.fails commit))))) [
              | inl unchanged ↦ inl (ground (arith, q))
              | inr done ↦ inr (entry, ground (arith, q))
            ]
]

-- The tables `updated` with one valid audit entry of this request appended under a new id.
pub record Appended (w : World) (request : AuditRequest) (updated db' : Database)
    (entry : AuditEntry) : Type 0 where
  pub is_entry : new_audit_entry (inserted_row w request (updated.last_id + 1)) ≡ created entry
  pub db_is : db' ≡ record updated {
    audit_log = updated.audit_log ++ inserted_row w request (updated.last_id + 1) ∷ [];
    last_id = updated.last_id + 1;
  }

pub checked_cases :
    (n : New AuditEntry)
    → ((a : AuditEntry) × (n ≡ created a)) ⊎ ((e : Error) × (checked n ≡ err e))
checked_cases (created a) = inl (a, refl)
checked_cases (rejected fs) = inr (invalid_entry fs, refl)

pub append_row-Appended :
    (w : World) (request : AuditRequest) (updated db' : Database) (a : AuditEntry)
    → append_row w request updated ≡ (ok a, db')
    → Appended w request updated db' a
unfolding append_row
append_row-Appended w request updated db' a h =
    elim (checked_cases (new_audit_entry (inserted_row w request (updated.last_id + 1)))) [
      | inl (b, q) ↦
          let same : b ≡ a = ground (arith, q) in
          rw (← same) (record { is_entry = q; db_is = ground (arith, q) })
      | inr (e, q) ↦ absurd (ground (arith, q))
    ]
