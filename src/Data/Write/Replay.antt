-- ===== src/Data/Write/Replay.antt =====
-- A write that is delivered again.
use agentops_open_course.Prelude.{
  false, Option, some, ◌≡◌, ◌≢◌, arith, Text, Bool, none, ◌∙◌, List, if◌then◌else◌, subst, inr, inl,
  ◌++◌, ◌+◌, ◌∷◌, ap, [], text_eq_self, true,
}
use agentops_open_course.Domain.Record.{created, AuditEntryRow, AuditEntry, new_audit_entry}
use agentops_open_course.Data.Tables.{
  has_unsupported, Database, select_audit, update_service, update_incident,
}
use agentops_open_course.Data.Transaction.{
  Step-cases, AuditIdentity, World, ok, audit_for_idempotency_key, with_database, key_query,
  TxResult, opening, begin, closing, AuditRequest, inserted_row,
}
use agentops_open_course.Data.Write.Supported.{write-supported}
use agentops_open_course.Data.Write.{
  Write, appends, restarts, resolves, transaction, append_tx, restart_tx, resolve_tx, restart_fresh,
  resolve_fresh, write,
}
use agentops_open_course.Data.Write.Effects.{
  recorded_row, invocation_of, action_of, target_of, Effect, transaction-Commits, key_found,
  appended, restarted, resolved,
}
use agentops_open_course.Data.Write.Atomic.{write-with_database, Appended}

-- The log holds `a` under the key of the write.
abbrev pub Recorded : Write → AuditEntry → Database → Type 0
Recorded r a db =
    (row : AuditEntryRow) × (recorded_row r db ≡ some row) × (new_audit_entry row ≡ created a)

-- `fn` with the key of `r` not found ends without an entry, or commits.
restart_fresh-entry :
    (w : World) (name : Text) (identity : AuditIdentity) (db db' : Database) (a : AuditEntry)
    → restart_fresh w name identity db ≢ (ok (false, some a), db')
unfolding restart_fresh
restart_fresh-entry w name identity db db' a h = ground arith

resolve_fresh-entry :
    (w : World) (id : Text) (identity : AuditIdentity) (db db' : Database) (a : AuditEntry)
    → resolve_fresh w id identity db ≢ (ok (false, some a), db')
unfolding resolve_fresh
resolve_fresh-entry w id identity db db' a h = ground arith

found-Recorded :
    (w : World) (r : Write) (db db' : Database) (a : AuditEntry)
    → transaction w r db ≡ (ok (false, some a), db')
    → (q : Option AuditEntry) × (audit_for_idempotency_key w
          (invocation_of r)
          (action_of r)
          (target_of r)
          db
        ≡ ok q)
      × (q ≡ some a)
unfolding transaction append_tx restart_tx resolve_tx
found-Recorded w (appends request) db db' a h = ground arith
found-Recorded w (restarts name identity) db db' a h =
    ground (arith, restart_fresh-entry w name identity db db' a)
found-Recorded w (resolves id identity) db db' a h =
    ground (arith, resolve_fresh-entry w id identity db db' a)

select_audit-append_self :
    (rows : List AuditEntryRow) (new : AuditEntryRow)
    → select_audit new.invocation_id new.action new.target rows ≡ none
    → select_audit new.invocation_id new.action new.target (rows ++ new ∷ []) ≡ some new
unfolding select_audit
select_audit-append_self [] new h =
    rw (text_eq_self new.invocation_id, text_eq_self new.action, text_eq_self new.target)
select_audit-append_self (row ∷ rows) new h = ground (arith, select_audit-append_self rows new)

Appended-Recorded :
    (w : World) (request : AuditRequest) (updated db' : Database) (a : AuditEntry)
    → select_audit request.invocation_id request.action request.target updated.audit_log ≡ none
    → Appended w request updated db' a
    → (row : AuditEntryRow) × (select_audit request.invocation_id request.action request.target
          db'.audit_log
        ≡ some row)
      × (new_audit_entry row ≡ created a)
Appended-Recorded w request updated db' a s x =
    let row = inserted_row w request (updated.last_id + 1) in
    (
      row,
      ap (λ (d : Database). select_audit row.invocation_id row.action row.target d.audit_log)
            x.db_is
          ∙ select_audit-append_self updated.audit_log row s,
      x.is_entry,
    )

Effect-Recorded :
    (w : World) (r : Write) (db db' : Database) (a : AuditEntry)
    → recorded_row r db ≡ none
    → Effect w db db' a r
    → Recorded r a db'
Effect-Recorded w r db db' a s (appended request x) = Appended-Recorded w request db db' a s x
Effect-Recorded w r db db' a s (restarted name identity summary row found x) =
    Appended-Recorded w _ (record db { services = update_service name db.services }) db' a s x
Effect-Recorded w r db db' a s (resolved id identity summary row found live x) =
    Appended-Recorded w _ (record db { incidents = update_incident w.update_now id db.incidents })
      db' a s x

transaction_ok :
    (w : World) (r : Write) (db db' : Database) (a : AuditEntry) (c : Bool)
    → transaction w r db ≡ (ok (c, some a), db')
    → Recorded r a (if c then db' else db)
transaction_ok w r db db' a true h =
    let (s, (b, same, effect)) = transaction-Commits w r db db' (some a) h in
    Effect-Recorded w r db db' a s (subst (λ x. Effect w db db' x r) (ground arith) effect)
transaction_ok w r db db' a false h =
    let (q, looked, same) = found-Recorded w r db db' a h in
    elim (key_found w (invocation_of r) (action_of r) (target_of r) db q looked) [
      | inl (e, _) ↦ absurd (ground arith)
      | inr (row, b, e, s, n) ↦ (row, s, ground arith)
    ]

with_database_ok :
    (w : World) (fn : Database → TxResult) (db : Database) (a : AuditEntry)
    → (with_database w fn db).0 ≡ ok (some a)
    → (c : Bool) × (db' : Database) × (has_unsupported db.audit_log ≡ false)
      × (fn db ≡ (ok (c, some a), db'))
      × ((with_database w fn db).1 ≡ (if c then db' else db))
unfolding with_database
with_database_ok w fn db a h = elim (Step-cases (fn db)) [
  | inr (e, _, q) ↦ absurd (ground (arith, q))
  | inl ((c, entry), db', q) ↦ (c, db', ground (arith, q), ground (arith, q), ground (arith, q))
]

write-Recorded :
    (w : World) (r : Write) (db : Database) (a : AuditEntry)
    → (write w r db).0 ≡ ok (some a)
    → Recorded r a (write w r db).1 × (has_unsupported (write w r db).1.audit_log ≡ false)
write-Recorded w r db a h =
    let same = write-with_database w r db in
    let (c, db', supported, t, e) = with_database_ok w (transaction w r) db a (rw same at h) in
    (rw (same, e) (transaction_ok w r db db' a c t), write-supported w r db supported)

transaction_again :
    (w : World) (r : Write) (db : Database) (a : AuditEntry)
    → Recorded r a db
    → w.fails key_query ≡ false
    → transaction w r db ≡ (ok (false, some a), db)
unfolding transaction append_tx restart_tx resolve_tx audit_for_idempotency_key
transaction_again w (appends request) db a (row, s, n) k = ground (arith, s, n)
transaction_again w (restarts name identity) db a (row, s, n) k = ground (arith, s, n)
transaction_again w (resolves id identity) db a (row, s, n) k = ground (arith, s, n)

with_database_again :
    (w : World) (fn : Database → TxResult) (db : Database) (a : AuditEntry)
    → fn db ≡ (ok (false, some a), db)
    → has_unsupported db.audit_log ≡ false
    → w.fails opening ≡ false
    → w.fails begin ≡ false
    → w.fails closing ≡ false
    → with_database w fn db ≡ (ok (some a), db)
unfolding with_database
with_database_again w fn db a h s o b c = ground arith

-- A write that returned an entry and is delivered again under the same idempotency key, with
-- whatever other arguments, returns that same entry and changes nothing, when the database can be
-- opened, locked, read and closed.
pub write_replayed :
    (w w' : World) (r r' : Write) (db : Database) (a : AuditEntry)
    → (write w r db).0 ≡ ok (some a)
    → invocation_of r' ≡ invocation_of r
    → action_of r' ≡ action_of r
    → target_of r' ≡ target_of r
    → w'.fails opening ≡ false
    → w'.fails begin ≡ false
    → w'.fails key_query ≡ false
    → w'.fails closing ≡ false
    → write w' r' (write w r db).1 ≡ (ok (some a), (write w r db).1)
write_replayed w w' r r' db a h i t u o b k c =
    let after = (write w r db).1 in
    let ((row, s, n), supported) = write-Recorded w r db a h in
    let recorded : Recorded r' a after = (row, rw (i, t, u) s, n) in
    write-with_database w' r' after
    ∙ with_database_again w' (transaction w' r') after a
        (transaction_again w' r' after a recorded k) supported o b c
