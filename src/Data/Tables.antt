-- ===== src/Data/Tables.antt =====
-- The tables of agents/data/sql/schema.sql and the SQL statements of agents/go/data/write.go, as
-- functions on them. The audit log stands in the order of its ids, oldest first.
use agentops_open_course.Prelude.{
  refl, All, arith, pos, ◌||◌, ◌↔◌, false, ltb_ℤ, ◌≡◌, ℕ, ◌+◌, Bool, not, ◌&&◌, List, [], ◌∷◌, ◌++◌,
  Option, none, some, if◌then◌else◌, Text, text_eq, map, text_lt,
}
use agentops_open_course.Domain.Status.{status_resolved, service_operational}
use agentops_open_course.Domain.Record.{
  current_audit_schema_version, ServiceRow, IncidentRow, AuditEntryRow,
}

pub record Database : Type 0 where
  pub services : List ServiceRow
  pub incidents : List IncidentRow
  pub audit_log : List AuditEntryRow
  -- The highest id that AUTOINCREMENT has given.
  pub last_id : ℕ

-- `SELECT * FROM audit_log WHERE invocation_id = ? AND action = ? AND target = ? ORDER BY id LIMIT 1`.
abbrev pub has_key : Text → Text → Text → AuditEntryRow → Bool
has_key invocation_id action target row =
    text_eq row.invocation_id invocation_id
    && text_eq row.action action
    && text_eq row.target target

unfoldable pub select_audit : Text → Text → Text → List AuditEntryRow → Option AuditEntryRow
select_audit i a t [] = none
select_audit i a t (row ∷ rows) = if has_key i a t row then some row else select_audit i a t rows

-- `SELECT … FROM audit_log WHERE schema_version < 1 OR schema_version > ?`: whether it finds a row. The
-- version of a row is an integer, as its column says.
abbrev pub is_unsupported : AuditEntryRow → Bool
is_unsupported row =
    ltb_ℤ row.schema_version (pos 1) || ltb_ℤ current_audit_schema_version row.schema_version

unfoldable pub has_unsupported : List AuditEntryRow → Bool
has_unsupported [] = false
has_unsupported (row ∷ rows) = is_unsupported row || has_unsupported rows

-- `SELECT status FROM services WHERE name = ?`; the name is the primary key.
unfoldable pub select_service : Text → List ServiceRow → Option ServiceRow
select_service name [] = none
select_service name (row ∷ rows) =
    if text_eq row.name name then some row else select_service name rows

-- `UPDATE services SET status = 'operational' WHERE name = ?`, and the rows affected.
unfoldable pub update_service : Text → List ServiceRow → List ServiceRow
update_service name [] = []
update_service name (row ∷ rows) =
    (if text_eq row.name name then record row { status = service_operational } else row)
    ∷ update_service name rows

unfoldable pub services_affected : Text → List ServiceRow → ℕ
services_affected name [] = 0
services_affected name (row ∷ rows) =
    (if text_eq row.name name then 1 else 0) + services_affected name rows

unfoldable pub select_incident : Text → List IncidentRow → Option IncidentRow
select_incident id [] = none
select_incident id (row ∷ rows) = if text_eq row.id id then some row else select_incident id rows

abbrev pub is_unresolved : Text → IncidentRow → Bool
is_unresolved id row = text_eq row.id id && not (text_eq row.status status_resolved)

-- `UPDATE incidents SET status = 'resolved', resolved_at = ? WHERE id = ? AND status != 'resolved'`.
unfoldable pub update_incident : Text → Text → List IncidentRow → List IncidentRow
update_incident now id [] = []
update_incident now id (row ∷ rows) =
    (if is_unresolved id row
      then record row { status = status_resolved; resolved_at = some now }
      else row)
    ∷ update_incident now id rows

unfoldable pub incidents_affected : Text → List IncidentRow → ℕ
incidents_affected id [] = 0
incidents_affected id (row ∷ rows) =
    (if is_unresolved id row then 1 else 0) + incidents_affected id rows

-- The order of texts, `ORDER BY opened_at DESC`, and `strings.Join`.
insert_latest : IncidentRow → List IncidentRow → List IncidentRow
insert_latest r [] = r ∷ []
insert_latest r (q ∷ qs) =
    if text_lt r.opened_at q.opened_at then q ∷ insert_latest r qs else r ∷ q ∷ qs

unfoldable pub latest_first : List IncidentRow → List IncidentRow
unfolding insert_latest
latest_first [] = []
latest_first (r ∷ rs) = insert_latest r (latest_first rs)

-- `SELECT id FROM incidents WHERE service = ? AND status != 'resolved' ORDER BY opened_at DESC`.
unresolved_of : Text → List IncidentRow → List IncidentRow
unresolved_of service [] = []
unresolved_of service (r ∷ rs) =
    if text_eq r.service service && not (text_eq r.status status_resolved)
    then r ∷ unresolved_of service rs
    else unresolved_of service rs

unfoldable pub select_open_incidents : Text → List IncidentRow → List Text
unfolding unresolved_of latest_first
select_open_incidents service rows = map (λ r. r.id) (latest_first (unresolved_of service rows))

abbrev pub join_with : Text → List Text → Text
join_with sep [] = []
join_with sep (t ∷ []) = t
join_with sep (t ∷ u ∷ ts) = t ++ (sep ++ join_with sep (u ∷ ts))

-- The rows that are supported are those of version 1.
pub has_unsupported_iff :
    (rows : List AuditEntryRow)
    → (has_unsupported rows ≡ false) ↔ All (λ row. row.schema_version ≡ pos 1) rows
unfolding has_unsupported
has_unsupported_iff [] = (λ h. tt, λ h. refl)
has_unsupported_iff (row ∷ rows) = (
  λ h. (ground arith, (has_unsupported_iff rows).0 (ground (arith, h))),
  λ (v, vs). ground (arith, v, (has_unsupported_iff rows).1 vs),
)

pub has_unsupported-append :
    (rows : List AuditEntryRow) (row : AuditEntryRow)
    → has_unsupported rows ≡ false
    → row.schema_version ≡ pos 1
    → has_unsupported (rows ++ row ∷ []) ≡ false
unfolding has_unsupported
has_unsupported-append [] row h v = ground (arith, v)
has_unsupported-append (r ∷ rows) row h v =
    ground (arith, h, λ (q : has_unsupported rows ≡ false). has_unsupported-append rows row q v)
