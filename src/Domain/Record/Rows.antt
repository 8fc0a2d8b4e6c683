-- ===== src/Domain/Record/Rows.antt =====
-- Parsing a row and giving it back.
use agentops_open_course.Prelude.{
  ◌≤◌, ◌<◌, [], ◌∷◌, none, some, ◌≡◌, ◌≢◌, ◌⊎◌, ◌↔◌, refl, arith, Text, text_eq_iff, length, pos,
}
use agentops_open_course.Domain.Identifier.{parse_incident_id, parse_slug, require_non_empty}
use agentops_open_course.Domain.Status.{parse_incident_status, parse_severity, parse_service_status}
use agentops_open_course.Domain.Record.{
  created, ServiceRow, Service, new_service, service_row, IncidentRow, Incident, new_incident,
  incident_row, AuditEntryRow, AuditEntry, new_audit_entry, audit_entry_row,
  max_audit_rationale_length,
}

pub slug_cases : (s : Text) → (parse_slug s ≡ none) ⊎ (parse_slug s ≡ some s)
unfolding parse_slug
slug_cases s = ground arith

pub incident_id_cases : (s : Text) → (parse_incident_id s ≡ none) ⊎ (parse_incident_id s ≡ some s)
unfolding parse_incident_id
incident_id_cases s = ground arith

pub service_status_cases :
    (s : Text) → (parse_service_status s ≡ none) ⊎ (parse_service_status s ≡ some s)
unfolding parse_service_status
service_status_cases s = ground arith

pub severity_cases : (s : Text) → (parse_severity s ≡ none) ⊎ (parse_severity s ≡ some s)
unfolding parse_severity
severity_cases s = ground arith

pub incident_status_cases :
    (s : Text) → (parse_incident_status s ≡ none) ⊎ (parse_incident_status s ≡ some s)
unfolding parse_incident_status
incident_status_cases s = ground arith

-- What is stored is what was parsed: a service that `NewService` accepts gives its row back, and
-- that row is accepted again as the same service.
pub service_round_trip :
    (row : ServiceRow) (s : Service)
    → new_service row ≡ created s
    → (service_row s ≡ row) × (new_service (service_row s) ≡ created s)
unfolding new_service service_row require_non_empty
service_round_trip row s h = ground (arith, slug_cases row.name, service_status_cases row.status)

pub incident_round_trip :
    (row : IncidentRow) (i : Incident)
    → new_incident row ≡ created i
    → (incident_row i ≡ row) × (new_incident (incident_row i) ≡ created i)
unfolding new_incident incident_row require_non_empty
incident_round_trip row i h = ground (
  arith,
  incident_id_cases row.id,
  slug_cases row.service,
  severity_cases row.severity,
  incident_status_cases row.status,
  slug_cases row.runbook,
)

length-eq-zero : (s : Text) → s ≢ [] → 0 < length s
length-eq-zero [] h = absurd (h refl)
length-eq-zero (c ∷ s) h = omega arith

-- `NewAuditEntry` gives an entry for a row exactly when the row's schema version is the current one,
-- 1, its rationale has 1 to 500 characters, and the entry has every field as the row has it.
pub audit_entry_accepts :
    (row : AuditEntryRow) (a : AuditEntry)
    → (new_audit_entry row ≡ created a) ↔ (
        (row.schema_version ≡ pos 1)
        × (0 < length row.rationale)
        × (length row.rationale ≤ max_audit_rationale_length)
        × (audit_entry_row a ≡ row))
unfolding new_audit_entry audit_entry_row require_non_empty
audit_entry_accepts row a = (
  λ accepted. ground (arith, text_eq_iff row.rationale [], length-eq-zero row.rationale),
  λ (version, some_text, short, same). ground (arith, text_eq_iff row.rationale []),
)
