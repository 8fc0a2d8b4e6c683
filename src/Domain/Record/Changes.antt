-- ===== src/Domain/Record/Changes.antt =====
-- Parsing a row after the changes that the audited writes make to it.
use agentops_open_course.Prelude.{◌≡◌, refl, arith, true, some, Text, text_eq}
use agentops_open_course.Domain.Identifier.{require_non_empty}
use agentops_open_course.Domain.Status.{
  service_operational, status_resolved, parse_service_status, parse_incident_status,
}
use agentops_open_course.Domain.Record.{
  created, ServiceRow, Service, new_service, IncidentRow, Incident, new_incident,
}
use agentops_open_course.Domain.Record.Rows.{
  slug_cases, incident_id_cases, service_status_cases, severity_cases, incident_status_cases,
}

operational_parses : parse_service_status service_operational ≡ some service_operational
unfolding parse_service_status text_eq
operational_parses = refl

resolved_parses : parse_incident_status status_resolved ≡ some status_resolved
unfolding parse_incident_status text_eq
resolved_parses = refl

pub operational_service :
    (row : ServiceRow) (s : Service)
    → new_service row ≡ created s
    → new_service (record row { status = service_operational })
      ≡ created (record s { status = service_operational })
unfolding new_service require_non_empty
operational_service row s h =
    ground (arith, operational_parses, slug_cases row.name, service_status_cases row.status)

pub resolved_incident :
    (row : IncidentRow) (i : Incident) (now : Text)
    → new_incident row ≡ created i
    → new_incident (record row { status = status_resolved; resolved_at = some now })
      ≡ created (record i { status = status_resolved; resolved_at = now; has_resolved_at = true })
unfolding new_incident require_non_empty
resolved_incident row i now h = ground (
  arith,
  resolved_parses,
  incident_id_cases row.id,
  slug_cases row.service,
  severity_cases row.severity,
  incident_status_cases row.status,
  slug_cases row.runbook,
)
