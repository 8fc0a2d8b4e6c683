-- ===== src/Data/Write/Supported.antt =====
-- The versions of the audit rows, through a write.
use agentops_open_course.Prelude.{◌≡◌, ◌∙◌, refl, ap, inl, inr, ◌+◌, false}
use agentops_open_course.Domain.Record.{AuditEntry}
use agentops_open_course.Data.Tables.{
  Database, has_unsupported, has_unsupported-append, update_service, update_incident,
}
use agentops_open_course.Data.Transaction.{World, AuditRequest, inserted_row}
use agentops_open_course.Data.Write.{Write, write}
use agentops_open_course.Data.Write.Atomic.{Appended}
use agentops_open_course.Data.Write.Effects.{Effect, write-Effect, appended, restarted, resolved}

Appended-supported :
    (w : World) (request : AuditRequest) (updated db' : Database) (a : AuditEntry)
    → has_unsupported updated.audit_log ≡ false
    → Appended w request updated db' a
    → has_unsupported db'.audit_log ≡ false
Appended-supported w request updated db' a h x =
    let row = inserted_row w request (updated.last_id + 1) in
    ap (λ (d : Database). has_unsupported d.audit_log) x.db_is
    ∙ has_unsupported-append updated.audit_log row h refl

Effect-supported :
    (w : World) (r : Write) (db db' : Database) (a : AuditEntry)
    → has_unsupported db.audit_log ≡ false
    → Effect w db db' a r
    → has_unsupported db'.audit_log ≡ false
Effect-supported w r db db' a h (appended request x) = Appended-supported w request db db' a h x
Effect-supported w r db db' a h (restarted name identity summary row found x) =
    Appended-supported w _ (record db { services = update_service name db.services }) db' a h x
Effect-supported w r db db' a h (resolved id identity summary row found live x) =
    Appended-supported w _ (record db { incidents = update_incident w.update_now id db.incidents })
      db' a h x

-- A write appends no row that is not supported.
pub write-supported :
    (w : World) (r : Write) (db : Database)
    → has_unsupported db.audit_log ≡ false
    → has_unsupported (write w r db).1.audit_log ≡ false
write-supported w r db h = elim (write-Effect w r db) [
  | inl same ↦ ap (λ (d : Database). has_unsupported d.audit_log) same ∙ h
  | inr (_, (a, effect)) ↦ Effect-supported w r db _ a h effect
]
